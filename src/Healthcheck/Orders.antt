-- ===== src/Healthcheck/Orders.antt =====
-- The answer of the health check does not depend on the order in which the checks end.
use synapse_go.Base.{
  ◌≡◌, refl, sym, ap, subst, ◌∙◌, inl, inr, Bool, true, false, Option, none, some, List, [], ◌∷◌,
  arith, if◌then◌else◌, Bool-cases, nat_eq, beq_refl, list_beq, list_beq_iff, lookup, lookup-insert,
  Text, text_eq, codes,
}
use synapse_go.Healthcheck.{Status, start, finish, finish_all, handler}

unfoldable pub shown : Option Text → Text
shown none = codes "ok"
shown (some e) = e

-- Each name stands once, as the keys of a map do.
unfoldable pub Distinct : List (Text × Option Text) → Type 0
Distinct [] = Unit
Distinct ((name, answer) ∷ rest) = (lookup name rest ≡ none) × Distinct rest

unfoldable pub some_failed : List (Text × Option Text) → Bool
some_failed [] = false
some_failed ((name, none) ∷ rest) = some_failed rest
some_failed ((name, some e) ∷ rest) = true

unfoldable pub shown_of : Option (Option Text) → Option Text → Option Text
shown_of none before = before
shown_of (some a) before = some (shown a)

lookup-finish :
    (name j : Text) (a : Option Text) (s : Status)
    → lookup j (finish name a s).checks
      ≡ (if list_beq name j then some (shown a) else lookup j s.checks)
unfolding finish shown
lookup-finish name j none s = lookup-insert name j (codes "ok") s.checks
lookup-finish name j (some e) s = lookup-insert name j e s.checks

one_more :
    (name j : Text) (a : Option Text) (rest : List (Text × Option Text)) (s : Status)
    → lookup name rest ≡ none
    → shown_of (lookup j rest) (lookup j (finish name a s).checks)
      ≡ shown_of (lookup j ((name, a) ∷ rest)) (lookup j s.checks)
unfolding shown_of lookup
one_more name j a rest s absent = elim (Bool-cases (list_beq name j)) [
  | inl same ↦
      let none_here : lookup j rest ≡ none =
        subst (λ k. lookup k rest ≡ none) ((list_beq_iff name j).0 same) absent in
      ap (shown_of (lookup j rest)) (lookup-finish name j a s) ∙ ground (arith, same, none_here)
  | inr differs ↦ ap (shown_of (lookup j rest)) (lookup-finish name j a s) ∙ ground (arith, differs)
]

lookup-finish_all :
    (ended : List (Text × Option Text)) (j : Text) (s : Status)
    → Distinct ended
    → lookup j (finish_all ended s).checks ≡ shown_of (lookup j ended) (lookup j s.checks)
unfolding finish_all Distinct shown_of lookup
lookup-finish_all [] j s d = refl
lookup-finish_all ((name, a) ∷ rest) j s d =
    lookup-finish_all rest j (finish name a s) d.1 ∙ one_more name j a rest s d.0

-- The status after the checks, and whether one of them has failed.
both : (b : Bool) → (if b then codes "degraded" else codes "degraded") ≡ codes "degraded"
both true = refl
both false = refl

status_finish_all :
    (ended : List (Text × Option Text)) (s : Status)
    → (finish_all ended s).status ≡ (if some_failed ended then codes "degraded" else s.status)
unfolding finish_all finish some_failed
status_finish_all [] s = refl
status_finish_all ((name, none) ∷ rest) s = status_finish_all rest (finish name none s)
status_finish_all ((name, some e) ∷ rest) s =
    status_finish_all rest (finish name (some e) s) ∙ both (some_failed rest)

code_of :
    (ended : List (Text × Option Text))
    → (handler ended).0 ≡ (if some_failed ended then 503 else 200)
unfolding handler start list_beq
code_of ended =
    ap (λ t. if list_beq t (codes "ok") then 200 else 503) (status_finish_all ended start)
    ∙ elim (Bool-cases (some_failed ended)) [ inl bad ↦ rw bad refl | inr fine ↦ rw fine refl ]

Fails : List (Text × Option Text) → Type 0
Fails ended = (name : Text) × (e : Text) × (lookup name ended ≡ some (some e))

some_failed-Fails :
    (ended : List (Text × Option Text)) → Distinct ended → some_failed ended ≡ true → Fails ended
unfolding some_failed Distinct Fails lookup
some_failed-Fails [] d h = absurd (ground arith)
some_failed-Fails ((name, none) ∷ rest) d h =
    let (n, e, found) = some_failed-Fails rest d.1 h in
    (
      n,
      e,
      elim (Bool-cases (list_beq name n)) [
        | inl same ↦
            let absent : lookup n rest ≡ none =
              subst (λ k. lookup k rest ≡ none) ((list_beq_iff name n).0 same) d.0 in
            absurd (ground (arith, absent, found))
        | inr differs ↦ rw differs found
      ],
    )
some_failed-Fails ((name, some e) ∷ rest) d h = (name, e, rw (beq_refl {A = Text} name) refl)

found_fails :
    (ended : List (Text × Option Text)) (n e : Text)
    → lookup n ended ≡ some (some e)
    → some_failed ended ≡ true
unfolding some_failed lookup
found_fails [] n e h = absurd (ground arith)
found_fails ((name, none) ∷ rest) n e h = elim (Bool-cases (list_beq name n)) [
  | inl same ↦ absurd (ground (arith, same, h))
  | inr differs ↦ found_fails rest n e (rw differs at h)
]
found_fails ((name, some a) ∷ rest) n e h = refl

fails_too :
    (a b : List (Text × Option Text))
    → Distinct a
    → ((n : Text) → lookup n a ≡ lookup n b)
    → some_failed a ≡ true
    → some_failed b ≡ true
unfolding Fails
fails_too a b d same h =
    let (n, e, found) = some_failed-Fails a d h in found_fails b n e (sym (same n) ∙ found)

fails_alike :
    (a b : List (Text × Option Text))
    → Distinct a
    → Distinct b
    → ((n : Text) → lookup n a ≡ lookup n b)
    → some_failed a ≡ some_failed b
fails_alike a b da db same = elim (Bool-cases (some_failed a)) [
  | inl bad ↦ bad ∙ sym (fails_too a b da same bad)
  | inr fine ↦ elim (Bool-cases (some_failed b)) [
    | inl bad ↦ fails_too b a db (λ n. sym (same n)) bad ∙ sym bad
    | inr fine_too ↦ fine ∙ sym fine_too
  ]
]

-- The health check answers the same in whatever order its checks end: two orders of the same answers
-- give one HTTP code and one status, which tell whether some check has failed, and the same text for
-- every name. Each name is registered once.
pub any_order :
    (a b : List (Text × Option Text)) (j : Text)
    → Distinct a
    → Distinct b
    → ((n : Text) → lookup n a ≡ lookup n b)
    → ((handler a).0 ≡ (handler b).0)
      × ((handler a).0 ≡ (if some_failed a then 503 else 200))
      × ((handler a).1.status ≡ (handler b).1.status)
      × (lookup j (handler a).1.checks ≡ lookup j (handler b).1.checks)
unfolding handler
any_order a b j da db same =
    let alike = fails_alike a b da db same in
    (
      code_of a ∙ ap (λ f. if f then 503 else 200) alike ∙ sym (code_of b),
      code_of a,
      status_finish_all a start
          ∙ ap (λ f. if f then codes "degraded" else start.status) alike
          ∙ sym (status_finish_all b start),
      lookup-finish_all a j start da
          ∙ ap (λ o. shown_of o (lookup j start.checks)) (same j)
          ∙ sym (lookup-finish_all b j start db),
    )
