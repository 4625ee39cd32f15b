-- ===== src/Base/Strings.antt =====
-- Go strings as lists of code points (valid UTF-8), with what the program takes of the standard
-- packages `strings`, `unicode` and `unicode/utf8`.
use Prim.Native.Nat.{ℕ, ◌+◌, ◌-◌}
use Prim.Native.Char.{code}
use Prim.Native.String.{String}
use mathlib.Core.Path.{◌≡◌, refl}
use mathlib.Core.Logic.{inl, inr}
use mathlib.Core.Bool.{Bool, true, false, not, ◌&&◌, ◌||◌}
use mathlib.Core.List.{List, [], ◌∷◌, map}
use native.Mathlib.Omega.{arith}
use synapse_go.Base.Tests.{ltb, leb, ◌==◌, if◌then◌else◌, Bool-cases}
use synapse_go.Base.Maps.{Eq, nat_eq, list_beq, list_beq_iff}

abbrev pub Text : Type 0
Text = List ℕ

instance abbrev pub text_eq : Eq Text
text_eq = record { beq = list_beq; beq_iff = list_beq_iff }

abbrev pub codes : String → Text
codes String.[] = []
codes (String.◌∷◌ c s) = code c ∷ codes s

abbrev pub is_empty : Text → Bool
is_empty [] = true
is_empty (c ∷ s) = false

-- `len(s)`: the bytes of the UTF-8 encoding.
unfoldable pub rune_len : ℕ → ℕ
rune_len c = if ltb c 0x80 then 1 else if ltb c 0x800 then 2 else if ltb c 0x10000 then 3 else 4

unfoldable pub byte_len : Text → ℕ
byte_len [] = 0
byte_len (c ∷ s) = rune_len c + byte_len s

-- `unicode.IsSpace`.
unfoldable pub is_space : ℕ → Bool
is_space c =
    (leb 9 c && leb c 13)
    || c == 32
    || c == 0x85
    || c == 0xa0
    || c == 0x1680
    || (leb 0x2000 c && leb c 0x200a)
    || c == 0x2028
    || c == 0x2029
    || c == 0x202f
    || c == 0x205f
    || c == 0x3000

-- `strings.TrimSpace`.
unfoldable pub trim_left : (ℕ → Bool) → Text → Text
trim_left cut [] = []
trim_left cut (c ∷ s) = let rest = trim_left cut s in if cut c then rest else c ∷ s

unfoldable pub trim_right : (ℕ → Bool) → Text → Text
trim_right cut [] = []
trim_right cut (c ∷ s) =
    let rest = trim_right cut s in if is_empty rest && cut c then [] else c ∷ rest

unfoldable pub trim : (ℕ → Bool) → Text → Text
unfolding trim_left trim_right
trim cut s = trim_right cut (trim_left cut s)

abbrev pub trim_space : Text → Text
trim_space = trim is_space

unfoldable pub has_prefix : Text → Text → Bool
has_prefix s [] = true
has_prefix [] (p ∷ ps) = false
has_prefix (c ∷ s) (p ∷ ps) = c == p && has_prefix s ps

-- A text is trimmed when no cut character stands at an end.
abbrev pub first_ok : (ℕ → Bool) → Text → Bool
first_ok cut [] = true
first_ok cut (c ∷ s) = not (cut c)

unfoldable pub last_ok : (ℕ → Bool) → Text → Bool
last_ok cut [] = true
last_ok cut (c ∷ []) = not (cut c)
last_ok cut (c ∷ d ∷ s) = last_ok cut (d ∷ s)

first_ok-trim_left : (cut : ℕ → Bool) (s : Text) → first_ok cut (trim_left cut s) ≡ true
unfolding trim_left
first_ok-trim_left cut [] = refl
first_ok-trim_left cut (c ∷ s) = elim (Bool-cases (cut c)) [
  | inl gone ↦ rw gone (first_ok-trim_left cut s)
  | inr kept ↦ rw (kept, kept)
]

first_ok-trim_right :
    (cut : ℕ → Bool) (s : Text) → first_ok cut s ≡ true → first_ok cut (trim_right cut s) ≡ true
unfolding trim_right
first_ok-trim_right cut [] h = refl
first_ok-trim_right cut (c ∷ s) h = ground arith

last_ok-cons :
    (cut : ℕ → Bool) (c : ℕ) (r : Text)
    → last_ok cut r ≡ true
    → is_empty r && cut c ≡ false
    → last_ok cut (c ∷ r) ≡ true
unfolding last_ok
last_ok-cons cut c [] h k = rw k
last_ok-cons cut c (d ∷ r) h k = h

pub last_ok-trim_right : (cut : ℕ → Bool) (s : Text) → last_ok cut (trim_right cut s) ≡ true
unfolding trim_right last_ok
last_ok-trim_right cut [] = refl
last_ok-trim_right cut (c ∷ s) = elim (Bool-cases (is_empty (trim_right cut s) && cut c)) [
  | inl gone ↦ rw gone
  | inr kept ↦ rw kept (last_ok-cons cut c (trim_right cut s) (last_ok-trim_right cut s) kept)
]

trim_right_id : (cut : ℕ → Bool) (s : Text) → last_ok cut s ≡ true → trim_right cut s ≡ s
unfolding trim_right last_ok
trim_right_id cut [] h = refl
trim_right_id cut (c ∷ []) h = ground arith
trim_right_id cut (c ∷ d ∷ s) h = rw (trim_right_id cut (d ∷ s) h)

-- A trimmed text is left alone.
pub trim_id :
    (cut : ℕ → Bool) (s : Text) → first_ok cut s ≡ true → last_ok cut s ≡ true → trim cut s ≡ s
unfolding trim
trim_id cut [] f l = refl
trim_id cut (c ∷ s) f l = elim (Bool-cases (cut c)) [
  | inl gone ↦ absurd (ground arith)
  | inr kept ↦ rw kept (trim_right_id cut (c ∷ s) l)
]

pub first_ok-trim : (cut : ℕ → Bool) (s : Text) → first_ok cut (trim cut s) ≡ true
unfolding trim
first_ok-trim cut s = first_ok-trim_right cut (trim_left cut s) (first_ok-trim_left cut s)

pub last_ok-trim : (cut : ℕ → Bool) (s : Text) → last_ok cut (trim cut s) ≡ true
unfolding trim
last_ok-trim cut s = last_ok-trim_right cut (trim_left cut s)

pub trim_idem : (cut : ℕ → Bool) (s : Text) → trim cut (trim cut s) ≡ trim cut s
trim_idem cut s = trim_id cut (trim cut s) (first_ok-trim cut s) (last_ok-trim cut s)

-- `strings.TrimPrefix`.
unfoldable pub trim_prefix : Text → Text → Text
trim_prefix s [] = s
trim_prefix [] (p ∷ ps) = []
trim_prefix (c ∷ s) (p ∷ ps) =
    let rest = trim_prefix s ps in if has_prefix (c ∷ s) (p ∷ ps) then rest else c ∷ s

-- Whether every rune passes a test, as a loop with an early return finds.
unfoldable pub all_runes : (ℕ → Bool) → Text → Bool
all_runes p [] = true
all_runes p (c ∷ s) = p c && all_runes p s

-- Case mapping of the ASCII letters; `Cases` gives the rest of `unicode.ToUpper` and `ToLower`.
pub record Cases : Type 0 where
  pub upper : ℕ → ℕ
  pub lower : ℕ → ℕ

unfoldable pub upper_rune : Cases → ℕ → ℕ
upper_rune u c = if ltb c 128 then (if leb b'a' c && leb c b'z' then c - 32 else c) else u.upper c

unfoldable pub lower_rune : Cases → ℕ → ℕ
lower_rune u c = if ltb c 128 then (if leb b'A' c && leb c b'Z' then c + 32 else c) else u.lower c

abbrev pub to_upper : Cases → Text → Text
to_upper u = map (upper_rune u)

abbrev pub to_lower : Cases → Text → Text
to_lower u = map (lower_rune u)

-- A mapping of no rune outside ASCII.
abbrev pub ascii_cases : Cases
ascii_cases = record { upper = λ c. c; lower = λ c. c }
