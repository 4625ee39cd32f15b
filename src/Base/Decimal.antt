-- ===== src/Base/Decimal.antt =====
-- `strconv.Itoa` and `strconv.FormatInt(n, 10)`.
use Prim.Native.Nat.{ℕ, zero, suc, ◌+◌, ◌/◌, ◌%◌}
use mathlib.Core.List.{[], ◌∷◌}
use synapse_go.Base.Tests.{ltb}
use synapse_go.Base.Int.{ℤ, pos, negsuc}
use synapse_go.Base.Strings.{Text}
use mathlib.Core.Bool.{true, false}

-- The digits of `n` in front of a text. A number below the fuel never meets its end.
unfoldable pub digits_before : ℕ → ℕ → Text → Text
digits_before zero n out = out
digits_before (suc fuel) n out =
    let d = b'0' + n % 10 in
    elim (ltb n 10) [ true ↦ d ∷ out | false ↦ digits_before fuel (n / 10) (d ∷ out) ]

unfoldable pub format_nat : ℕ → Text
unfolding digits_before
format_nat n = digits_before (suc n) n []

unfoldable pub format_int : ℤ → Text
unfolding format_nat
format_int (pos n) = format_nat n
format_int (negsuc n) = b'-' ∷ format_nat (suc n)
