-- ===== src/Notify/Attempts.antt =====
-- How a notification with retries ends.
use synapse_go.Base.{
  ℕ, zero, suc, ◌+◌, ◌≤◌, ◌<◌, ◌≡◌, refl, sym, ap, subst, ◌⊎◌, inl, inr, Bool, true, false, Option,
  none, some, arith, ◌==◌, ==_iff, Bool-cases, Option-cases, nat_eq, Text, text_eq,
}
use synapse_go.Notify.{Outcome, sent, all_failed, send_from, send}

unfoldable pub failed : Option Text → Bool
failed none = false
failed (some e) = true

module _ (answer : ℕ → Option Text) (done : ℕ → Bool) (max_retries : ℕ) where
  -- The first attempt that succeeds, or the error of the last one.
  unfoldable pub Ends : Outcome → Type 0
  Ends o =
      ((i : ℕ) × (o ≡ sent i)
        × (i ≤ max_retries)
        × (answer i ≡ none)
        × ((j : ℕ) → j < i → failed (answer j) ≡ true))
      ⊎ ((o ≡ all_failed (answer max_retries))
          × ((j : ℕ) → j ≤ max_retries → failed (answer j) ≡ true))

  failed_up :
      (i : ℕ) (e : Text)
      → answer i ≡ some e
      → ((j : ℕ) → j < i → failed (answer j) ≡ true)
      → (j : ℕ) → j < suc i
      → failed (answer j) ≡ true
  unfolding failed
  failed_up i e h before j lt = elim (Bool-cases (j == i)) [
    | inl same ↦ subst (λ k. failed (answer k) ≡ true) (sym ((==_iff j i).0 same)) (ap failed h)
    | inr differs ↦ before j (ground arith)
  ]

  stops :
      (left i : ℕ) (last : Option Text)
      → answer i ≡ none
      → send_from answer done max_retries (suc left) i last ≡ sent i
  unfolding send_from
  stops left i last h = ground (arith, h)

  goes_on :
      (left i : ℕ) (last : Option Text) (e : Text)
      → answer i ≡ some e
      → done i ≡ false
      → send_from answer done max_retries (suc left) i last
        ≡ send_from answer done max_retries left (suc i) (answer i)
  unfolding send_from
  goes_on left i last e h calm = ground (arith, h, calm)

  from_Ends :
      (left i : ℕ) (last : Option Text)
      → i + left ≡ suc max_retries
      → ((k : ℕ) → done k ≡ false)
      → ((j : ℕ) → j < i → failed (answer j) ≡ true)
      → (left ≡ 0 → last ≡ answer max_retries)
      → Ends (send_from answer done max_retries left i last)
  unfolding Ends send_from
  from_Ends zero i last e calm before given =
      inr (ap all_failed (given refl), λ j le. before j (omega arith))
  from_Ends (suc left) i last e calm before given = elim (Option-cases (answer i)) [
    | inl ok ↦ inl (i, stops left i last ok, omega arith, ok, before)
    | inr (err, bad) ↦
        let at_end : left ≡ 0 → i ≡ max_retries = λ z. omega arith in
        let rest =
          from_Ends left (suc i) (answer i) (omega arith) calm (failed_up i err bad before)
            (λ z. ap answer (at_end z)) in
        subst Ends (sym (goes_on left i last err bad (calm i))) rest
  ]

  -- A send with retries ends, after one attempt more than the retries at most: it stops at the first
  -- attempt that succeeds, and reports the error of the last attempt only if every one of them has
  -- failed. The context does not end while the notifier waits.
  pub send-Ends : ((k : ℕ) → done k ≡ false) → Ends (send answer done max_retries)
  unfolding send Ends
  send-Ends calm =
      from_Ends (suc max_retries) 0 none (omega arith) calm (λ j lt. absurd (omega arith))
        (λ z. absurd (omega arith))
