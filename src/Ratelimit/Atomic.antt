-- ===== src/Ratelimit/Atomic.antt =====
-- `luaCheckAndIncrement` takes all its keys or none.
use synapse_go.Base.{
  ℕ, suc, ◌≡◌, refl, sym, ap, subst, ◌∙◌, ◌≢◌, ◌⊎◌, inl, inr, Bool, true, false, none, some, List,
  [], ◌∷◌, arith, if◌then◌else◌, Bool-cases, Option-cases, All, Any, here, there, ℤ, ◌+ℤ◌, ◌≤ℤ◌,
  ◌<ℤ◌, ltb_ℤ_false, nat_eq, beq_refl, beq_false, list_beq, Text, text_eq,
}
use synapse_go.Ratelimit.Scripts.{
  or_zero, Counters, Entry, count, over, first_over, bump, bump_all, decide_from,
  check_and_increment,
}

abbrev pub Distinct : List Entry → Type 0
Distinct [] = Unit
Distinct (e ∷ es) = All (λ f. e.key ≢ f.key) es × Distinct es

module _ (C : Counters) where
  open C use {Store, get, incr_by, expire}

  pub count-incr_by :
      (k j : Text) (n : ℤ) (s : Store)
      → count C j (incr_by k n s) ≡ (if list_beq k j then count C k s +ℤ n else count C j s)
  unfolding count
  count-incr_by k j n s = rw (C.get-incr_by k j n s) (by_test (list_beq k j))
    where
      by_test :
          (b : Bool)
          → or_zero (if b then some (or_zero (get k s) +ℤ n) else get j s)
            ≡ (if b then or_zero (get k s) +ℤ n else or_zero (get j s))
      by_test true = unfold or_zero in refl
      by_test false = refl

  count-incr_by_self : (k : Text) (n : ℤ) (s : Store) → count C k (incr_by k n s) ≡ count C k s +ℤ n
  count-incr_by_self k n s = rw (count-incr_by k k n s, beq_refl {A = Text} k)

  count-incr_by_ne :
      (k j : Text) (n : ℤ) (s : Store) → k ≢ j → count C j (incr_by k n s) ≡ count C j s
  count-incr_by_ne k j n s d = rw (count-incr_by k j n s, beq_false {A = Text} k j d)

  pub count-expire : (k j : Text) (ttl : ℕ) (s : Store) → count C j (expire k ttl s) ≡ count C j s
  unfolding count
  count-expire k j ttl s = ap or_zero (C.get-expire k j ttl s)

  count-bump_self :
      (e : Entry) (s : Store) → count C e.key (bump C e s) ≡ count C e.key s +ℤ e.increment
  unfolding bump
  count-bump_self e s =
      count-expire e.key e.key e.ttl (incr_by e.key e.increment s)
      ∙ count-incr_by_self e.key e.increment s

  count-bump_ne :
      (e : Entry) (j : Text) (s : Store) → e.key ≢ j → count C j (bump C e s) ≡ count C j s
  unfolding bump
  count-bump_ne e j s d =
      count-expire e.key j e.ttl (incr_by e.key e.increment s)
      ∙ count-incr_by_ne e.key j e.increment s d

  count-bump_all_ne :
      (j : Text) (es : List Entry) (s : Store)
      → All (λ f. f.key ≢ j) es
      → count C j (bump_all C es s) ≡ count C j s
  unfolding bump_all
  count-bump_all_ne j [] s h = refl
  count-bump_all_ne j (e ∷ es) s h =
      count-bump_all_ne j es (bump C e s) h.1 ∙ count-bump_ne e j s h.0

  flip_ne : (j : Text) (es : List Entry) → All (λ f. j ≢ f.key) es → All (λ f. f.key ≢ j) es
  flip_ne j [] h = tt
  flip_ne j (e ∷ es) h = ((λ p. h.0 (sym p)), flip_ne j es h.1)

  -- What a batch adds to each of its keys.
  Bumped : Store → Store → Entry → Type 0
  Bumped s t e = count C e.key t ≡ count C e.key s +ℤ e.increment

  shift :
      (es : List Entry) (e : Entry) (s t : Store)
      → All (λ f. e.key ≢ f.key) es
      → All (Bumped (bump C e s) t) es
      → All (Bumped s t) es
  unfolding Bumped
  shift [] e s t d h = tt
  shift (f ∷ es) e s t d h =
      (h.0 ∙ ap (λ n. n +ℤ f.increment) (count-bump_ne e f.key s d.0), shift es e s t d.1 h.1)

  bump_all-Bumped :
      (es : List Entry) (s : Store) → Distinct es → All (Bumped s (bump_all C es s)) es
  unfolding bump_all Bumped
  bump_all-Bumped [] s d = tt
  bump_all-Bumped (e ∷ es) s d = (
    count-bump_all_ne e.key es (bump C e s) (flip_ne e.key es d.0) ∙ count-bump_self e s,
    shift es e s (bump_all C es (bump C e s)) d.0 (bump_all-Bumped es (bump C e s) d.1),
  )

  first_over-none :
      (i : ℕ) (es : List Entry) (s : Store)
      → first_over C i es s ≡ none
      → All (λ e. over C e s ≡ false) es
  unfolding first_over
  first_over-none i [] s h = tt
  first_over-none i (e ∷ es) s h = elim (Bool-cases (over C e s)) [
    | inl bad ↦ absurd (ground arith)
    | inr good ↦ (good, first_over-none (suc i) es s (ground arith))
  ]

  first_over-some :
      (i j : ℕ) (es : List Entry) (s : Store)
      → first_over C i es s ≡ some j
      → Any (λ e. over C e s ≡ true) es
  unfolding first_over
  first_over-some i j [] s h = absurd (ground arith)
  first_over-some i j (e ∷ es) s h = elim (Bool-cases (over C e s)) [
    | inl bad ↦ here bad
    | inr good ↦ there (first_over-some (suc i) j es s (ground arith))
  ]

  -- A key that has been counted within its limit.
  pub Counted : Store → Store → Entry → Type 0
  Counted s t e = (count C e.key t ≡ count C e.key s +ℤ e.increment) × (count C e.key t ≤ℤ e.limit)

  counted :
      (es : List Entry) (s t : Store)
      → All (Bumped s t) es
      → All (λ e. over C e s ≡ false) es
      → All (Counted s t) es
  unfolding Bumped Counted over
  counted [] s t b o = tt
  counted (e ∷ es) s t b o = (
    (
      b.0,
      subst (λ n. n ≤ℤ e.limit) (sym b.0)
          (ltb_ℤ_false e.limit (count C e.key s +ℤ e.increment) o.0),
    ),
    counted es s t b.1 o.1,
  )

  over_lt : (e : Entry) (s : Store) → over C e s ≡ true → e.limit <ℤ count C e.key s +ℤ e.increment
  unfolding over
  over_lt e s h = ground arith

  passes :
      (es : List Entry) (s : Store)
      → Any (λ e. over C e s ≡ true) es
      → Any (λ e. e.limit <ℤ count C e.key s +ℤ e.increment) es
  passes [] s h = elim h [ ]
  passes (e ∷ es) s (here h) = here (over_lt e s h)
  passes (e ∷ es) s (there h) = there (passes es s h)

  -- The script takes all its keys or none. When it allows, each key has grown by its increment and
  -- is within its limit; when it denies, nothing has changed and some key would have passed its
  -- limit. The keys are distinct.
  take_atomic :
      (es : List Entry) (s : Store)
      → Distinct es
      → let (r, t) = check_and_increment C es s in
        ((r.allowed ≡ true) × All (Counted s t) es)
        ⊎ ((r.allowed ≡ false) × (t ≡ s) × Any (λ e. e.limit <ℤ count C e.key s +ℤ e.increment) es)
  unfolding check_and_increment decide_from
  take_atomic es s d = elim (Option-cases (first_over C 0 es s)) [
    | inl free ↦
        rw free (inl (refl, counted es s _ (bump_all-Bumped es s d) (first_over-none 0 es s free)))
    | inr (j, found) ↦ rw found (inr (refl, refl, passes es s (first_over-some 0 j es s found)))
  ]
