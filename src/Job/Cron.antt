-- ===== src/Job/Cron.antt =====
-- job/cronguard.go: Normalize of a cron line.
use synapse_go.Base.{
  ℕ, ◌⊎◌, inl, inr, Bool, true, false, not, ◌||◌, Option, none, some, List, [], ◌∷◌, ◌++◌, ◌==◌,
  if◌then◌else◌, length, nat_eq, Text, text_eq, codes, is_empty, trim_space, has_prefix,
  trim_prefix, fields,
}

pub data Err : Type 0 where
  six_field quartz_char missing_tz : Err

abbrev pub space : ℕ
space = 32

-- The text before the first space, all of it if there is none.
unfoldable pub before_space : Text → Text
before_space [] = []
before_space (c ∷ s) = let rest = before_space s in if c == space then [] else c ∷ rest

unfoldable pub after_space : Text → Option Text
after_space [] = none
after_space (c ∷ s) = let rest = after_space s in if c == space then some s else rest

unfoldable pub contains_rune : ℕ → Text → Bool
contains_rune r [] = false
contains_rune r (c ∷ s) = c == r || contains_rune r s

unfoldable pub contains_any : List ℕ → Text → Bool
contains_any [] s = false
contains_any (r ∷ rs) s = contains_rune r s || contains_any rs s

-- `strings.Join(fields, " ")`
unfoldable pub join : List Text → Text
join [] = []
join (w ∷ []) = w
join (w ∷ v ∷ ws) = w ++ space ∷ join (v ∷ ws)

abbrev pub prefix : Text
prefix = codes "CRON_TZ="

-- Whether there is a prefix, and the five fields.
unfoldable pub schedule_after : Text → Option Text → Err ⊎ (Bool × Text)
schedule_after rest none = inl missing_tz
schedule_after rest (some s) =
    if is_empty (trim_space (before_space rest)) then inl missing_tz else inr (true, s)

unfoldable pub schedule_part : Text → Err ⊎ (Bool × Text)
unfolding schedule_after after_space
schedule_part expr =
    let rest = trim_prefix expr prefix in
    if has_prefix expr prefix then schedule_after rest (after_space rest) else inr (false, expr)

unfoldable pub check_schedule : Text → Err ⊎ (Bool × Text) → Err ⊎ Text
check_schedule expr (inl e) = inl e
check_schedule expr (inr (has_tz, s)) =
    if contains_any (b'?' ∷ b'L' ∷ b'W' ∷ b'#' ∷ []) s
    then inl quartz_char
    else if not (length (fields s) == 5)
    then inl six_field
    else if has_tz
    then inr (before_space expr ++ space ∷ join (fields s))
    else inl missing_tz

unfoldable pub normalize : Text → Err ⊎ Text
unfolding check_schedule schedule_part
normalize raw = let expr = trim_space raw in check_schedule expr (schedule_part expr)
