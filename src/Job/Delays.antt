-- ===== src/Job/Delays.antt =====
-- How long the delays between retries are.
use synapse_go.Base.{
  ℕ, ◌^◌, ◌≤◌, ◌<◌, ◌≡◌, refl, sym, ap, subst, ◌∙◌, inl, inr, Bool, true, false, none, arith,
  if◌then◌else◌, Bool-cases, ℤ, pos, pos_part, ◌≤ℤ◌, nat_eq, text_eq, Duration, seconds,
}
use synapse_go.Job.Backoff.{
  Floats, BackoffPolicy, or_base, not_below, unless, with_defaults, is_invalid, validate, raw_delay,
  capped, delay,
}

-- 2^63 - 1, the largest Duration.
abbrev pub max_int64 : ℕ
max_int64 = 9223372036854775807

-- What float64 does with numbers, and never with NaN. The product of a positive whole number and a
-- number of at least one, infinity too, is at least the whole number, and a power whose base is at
-- least one is at least one. The conversion to an integer is used in the range of int64 only: a
-- float that is at least `b`, which is exact up to 2^53, and not at least the float of `top`, an
-- int64, is cut off to an integer between the two.
pub record Laws (F : Floats) : Type 1 where
  pub pow_ge :
      (m : F.Float) (k : ℕ)
      → F.geb m (F.of_int (pos 1)) ≡ true
      → F.geb (F.pow m k) (F.of_int (pos 1)) ≡ true
  pub mul_ge :
      (n : ℕ) (x : F.Float)
      → 1 ≤ n
      → F.geb x (F.of_int (pos 1)) ≡ true
      → F.geb (F.mul (F.of_int (pos n)) x) (F.of_int (pos n)) ≡ true
  pub truncate_between :
      (b top : ℕ) (x : F.Float)
      → b ≤ 2 ^ 53
      → top ≤ max_int64
      → F.geb x (F.of_int (pos b)) ≡ true
      → F.geb x (F.of_int (pos top)) ≡ false
      → (pos b ≤ℤ F.truncate x) × (F.truncate x ≤ℤ pos top)
  pub ge_same : (n : ℕ) → F.geb (F.of_int (pos n)) (F.of_int (pos n)) ≡ true

or_base_twice : (d e : Duration) → or_base (or_base d e) e ≡ or_base d e
unfolding or_base
or_base_twice d e = ground arith

if_twice :
    {A : Type 0} (test : A → Bool) (x y : A)
    → let z = if test y then x else y in (if test z then x else z) ≡ z
if_twice test x y = elim (Bool-cases (test y)) [
  | inl holds ↦ rw holds (elim (Bool-cases (test x)) [ inl a ↦ rw a refl | inr b ↦ rw b refl ])
  | inr b ↦ rw b (rw b refl)
]

fields_path :
    {A : Type 0} {p q : BackoffPolicy A}
    → p.base ≡ q.base
    → p.maximum ≡ q.maximum
    → p.multiplier ≡ q.multiplier
    → p ≡ q
fields_path a b c = ground arith

module _ (F : Floats) (laws : Laws F) where
  open F use {Float, of_int, mul, pow, geb, lt, is_nought, truncate}

  with_defaults_twice :
      (p : BackoffPolicy Float) → with_defaults F (with_defaults F p) ≡ with_defaults F p
  unfolding with_defaults
  with_defaults_twice p =
      fields_path (or_base_twice p.base (pos (seconds 1)))
        (or_base_twice p.maximum (pos (seconds 300)))
        (if_twice is_nought (of_int (pos 2)) p.multiplier)

  -- The float that is cut off is at least the base.
  raw_delay_ge :
      (p : BackoffPolicy Float) (b : ℕ) (attempt : ℤ)
      → p.base ≡ pos b
      → 1 ≤ b
      → geb p.multiplier (of_int (pos 1)) ≡ true
      → geb (raw_delay F p attempt) (of_int (pos b)) ≡ true
  unfolding raw_delay
  raw_delay_ge p b attempt e least m = ground (
    arith,
    laws.ge_same b,
    laws.mul_ge b (pow p.multiplier (pos_part attempt)) least
        (laws.pow_ge p.multiplier (pos_part attempt) m),
  )

  capped_within :
      (p : BackoffPolicy Float) (b top : ℕ) (x : Float)
      → p.maximum ≡ pos top
      → b ≤ top
      → b ≤ 2 ^ 53
      → top ≤ max_int64
      → geb x (of_int (pos b)) ≡ true
      → (pos b ≤ℤ capped F p x) × (capped F p x ≤ℤ pos top)
  unfolding capped
  capped_within p b top x e le small wide ge = elim (Bool-cases (geb x (of_int p.maximum))) [
    | inl over ↦ ground arith
    | inr below ↦
        let under : geb x (of_int (pos top)) ≡ false = ap (λ n. geb x (of_int n)) (sym e) ∙ below in
        let (a, c) = laws.truncate_between b top x small wide ge under in ground arith
  ]

  delay_lem :
      (p : BackoffPolicy Float) (attempt : ℤ)
      → validate F p ≡ none
      → let q = with_defaults F p in
        delay F p attempt ≡ inr (capped F q (raw_delay F q (not_below (pos 0) attempt)))
  unfolding delay validate unless
  delay_lem p attempt ok =
      let q = with_defaults F p in
      let same : is_invalid F (with_defaults F q) ≡ is_invalid F q =
        ap (is_invalid F) (with_defaults_twice p) in
      let fine : is_invalid F q ≡ false = ground arith in rw same (rw fine refl)

  valid_parts :
      (p : BackoffPolicy Float)
      → validate F p ≡ none
      → let q = with_defaults F p in
        (q.base ≡ pos (pos_part q.base))
        × (q.maximum ≡ pos (pos_part q.maximum))
        × (0 < pos_part q.base)
        × (pos_part q.base ≤ pos_part q.maximum)
  unfolding validate is_invalid
  valid_parts p ok = ground arith

  -- A delay of a valid policy, in which zeros stand for the defaults, is never an error, whatever the
  -- attempt: it is at least the base and at most the maximum. The base is at most 2^53 nanoseconds,
  -- about 104 days, the maximum is at most 2^63 - 1 nanoseconds, as every Duration, and the
  -- multiplier is a number, of at least one.
  pub delay_within :
      (p : BackoffPolicy Float) (attempt : ℤ)
      → validate F p ≡ none
      → let q = with_defaults F p in
        q.base ≤ℤ pos (2 ^ 53)
        → q.maximum ≤ℤ pos max_int64
        → geb q.multiplier (of_int (pos 1)) ≡ true
        → (d : Duration) × (delay F p attempt ≡ inr d) × (q.base ≤ℤ d) × (d ≤ℤ q.maximum)
  delay_within p attempt ok small wide m =
      let q = with_defaults F p in
      let x = raw_delay F q (not_below (pos 0) attempt) in
      let (eb, em, some_base, le) = valid_parts p ok in
      let ge = raw_delay_ge q (pos_part q.base) (not_below (pos 0) attempt) eb (ground arith) m in
      let (low, high) =
        capped_within q (pos_part q.base) (pos_part q.maximum) x em le (ground arith) (ground arith)
          ge in
      (
        capped F q x,
        delay_lem p attempt ok,
        subst (λ n. n ≤ℤ capped F q x) (sym eb) low,
        subst (λ n. capped F q x ≤ℤ n) (sym em) high,
      )
