-- ===== src/Base/Digits.antt =====
-- Decimal digits, read back.
use Prim.Native.Nat.{ℕ, zero, suc, ◌+◌, ◌-◌, ◌*◌, ◌/◌, ◌%◌, ◌≤◌, ◌<◌}
use mathlib.Core.Path.{◌≡◌, refl, sym, subst, ap, ◌∙◌}
use mathlib.Core.List.{[], ◌∷◌}
use mathlib.Core.Bool.{Bool, true, false, ◌&&◌}
use mathlib.Core.Logic.{inl, inr}
use native.Mathlib.Omega.{arith}
use synapse_go.Base.Tests.{ltb, leb, Bool-cases, ltb→lt, ltb_false→le}
use synapse_go.Base.Strings.{Text, is_empty}
use synapse_go.Base.Lists.{All}
use synapse_go.Base.Decimal.{digits_before, format_nat}

-- The number that digits stand for, after those that stand for `n`.
unfoldable pub read_digits : ℕ → Text → ℕ
read_digits n [] = n
read_digits n (c ∷ s) = read_digits (n * 10 + (c - 48)) s

unfoldable pub is_digit : ℕ → Bool
is_digit c = leb 48 c && ltb c 58

unfoldable pub IsDigit : ℕ → Type 0
IsDigit c = (48 ≤ c) × (c < 58)

last_digit :
    (fuel n : ℕ) (out : Text)
    → ltb n 10 ≡ true
    → digits_before (suc fuel) n out ≡ (48 + n % 10) ∷ out
unfolding digits_before
last_digit fuel n out h = ground arith

more_digits :
    (fuel n : ℕ) (out : Text)
    → ltb n 10 ≡ false
    → digits_before (suc fuel) n out ≡ digits_before fuel (n / 10) ((48 + n % 10) ∷ out)
unfolding digits_before
more_digits fuel n out h = ground arith

read-digits_before :
    (fuel n : ℕ) (out : Text)
    → n < fuel
    → read_digits 0 (digits_before fuel n out) ≡ read_digits n out
unfolding read_digits
read-digits_before zero n out h = absurd (omega arith)
read-digits_before (suc fuel) n out h = elim (Bool-cases (ltb n 10)) [
  | inl small ↦
      ap (read_digits 0) (last_digit fuel n out small)
      ∙ ap (λ k. read_digits k out) (ground (arith, ltb→lt n 10 small))
  | inr large ↦
      ap (read_digits 0) (more_digits fuel n out large)
      ∙ read-digits_before fuel (n / 10) ((48 + n % 10) ∷ out)
          (omega (arith, ltb_false→le n 10 large))
      ∙ ap (λ k. read_digits k out) (omega arith)
]

pub read-format_nat : (n : ℕ) → read_digits 0 (format_nat n) ≡ n
unfolding format_nat read_digits
read-format_nat n = read-digits_before (suc n) n [] (omega arith)

digits_before-IsDigit :
    (fuel n : ℕ) (out : Text) → All IsDigit out → All IsDigit (digits_before fuel n out)
unfolding IsDigit
digits_before-IsDigit zero n out h = unfold digits_before in h
digits_before-IsDigit (suc fuel) n out h = elim (Bool-cases (ltb n 10)) [
  | inl small ↦
      subst (All IsDigit) (sym (last_digit fuel n out small)) ((omega arith, omega arith), h)
  | inr large ↦
      subst (All IsDigit) (sym (more_digits fuel n out large))
        (digits_before-IsDigit fuel (n / 10) ((48 + n % 10) ∷ out) ((omega arith, omega arith), h))
]

pub format_nat-IsDigit : (n : ℕ) → All IsDigit (format_nat n)
unfolding format_nat
format_nat-IsDigit n = digits_before-IsDigit (suc n) n [] tt

digits_some :
    (fuel n : ℕ) (out : Text) → is_empty out ≡ false → is_empty (digits_before fuel n out) ≡ false
digits_some zero n out h = unfold digits_before in h
digits_some (suc fuel) n out h = elim (Bool-cases (ltb n 10)) [
  | inl small ↦ ap is_empty (last_digit fuel n out small)
  | inr large ↦
      ap is_empty (more_digits fuel n out large)
      ∙ digits_some fuel (n / 10) ((48 + n % 10) ∷ out) refl
]

pub format_nat_some : (n : ℕ) → is_empty (format_nat n) ≡ false
unfolding format_nat
format_nat_some n = elim (Bool-cases (ltb n 10)) [
  | inl small ↦ ap is_empty (last_digit n n [] small)
  | inr large ↦
      ap is_empty (more_digits n n [] large) ∙ digits_some n (n / 10) ((48 + n % 10) ∷ []) refl
]
