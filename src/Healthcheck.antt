-- ===== src/Healthcheck.antt =====
-- healthcheck/healthcheck.go: the checks run concurrently, and each records its result under a lock.
-- The order in which they end is an argument; a check's answer is nothing, or an error's text.
pub mod Orders
mod Tests
use synapse_go.Base.{
  ℕ, zero, suc, ◌+◌, ◌-◌, ◌*◌, ◌/◌, ◌%◌, ◌^◌, ◌≤◌, ◌<◌, min, ◌≡◌, refl, sym, ap, ap₂, subst, ◌∙◌,
  ◌≢◌, ◌↔◌, ◌⊎◌, inl, inr, Bool, true, false, not, ◌&&◌, ◌||◌, Option, none, some, List, [], ◌∷◌,
  ◌++◌, map, arith, ◌==◌, ==_iff, ltb, leb, if◌then◌else◌, ltb→lt, ltb_false→le, leb→le, Bool-cases,
  Option-cases, ap-if, Sum-cases, length, take, drop, length-append, length-take, length-drop, All,
  Any, here, there, ℤ, pos, negsuc, pos_part, neg_part, sub_ℕ, ◌+ℤ◌, ◌-ℤ◌, ◌≤ℤ◌, ◌<ℤ◌, ltb_ℤ, leb_ℤ,
  nonpos, +ℤ_parts, -ℤ_parts, eq_of_parts, int_laws, ltb_ℤ_false, eq_ℤ, eq_ℤ_refl, eq_of_eq_ℤ, Eq,
  nat_eq, beq_refl, beq_false, ne_of_beq, list_beq, list_beq_iff, lookup, insert, delete,
  lookup-insert, lookup-insert_self, lookup-insert_ne, lookup-delete, Text, text_eq, codes,
  is_empty, rune_len, byte_len, is_space, trim_left, trim_right, trim, trim_space, has_prefix,
  first_ok, last_ok, last_ok-trim_right, trim_id, first_ok-trim, last_ok-trim, trim_idem,
  trim_prefix, all_runes, Cases, upper_rune, lower_rune, to_upper, to_lower, ascii_cases, Time,
  Duration, is_zero, add_time, sub_time, after, seconds, digits_before, format_nat, format_int,
  read_digits, is_digit, IsDigit, read-format_nat, format_nat-IsDigit, format_nat_some, push_word,
  words, fields, words_one, words-append, words-space, pushed,
}

pub record Status : Type 0 where
  pub status : Text
  pub checks : List (Text × Text)

unfoldable pub register : {A : Type 0} → Text → A → List (Text × A) → List (Text × A)
register name fn checks = insert name fn checks

unfoldable pub start : Status
start = record { status = codes "ok"; checks = [] }

-- What a goroutine writes when its check has ended.
unfoldable pub finish : Text → Option Text → Status → Status
finish name none s = record s { checks = insert name (codes "ok") s.checks }
finish name (some e) s = record { status = codes "degraded"; checks = insert name e s.checks }

-- The checks in the order in which they end.
unfoldable pub finish_all : List (Text × Option Text) → Status → Status
unfolding finish
finish_all [] s = s
finish_all ((name, answer) ∷ rest) s = finish_all rest (finish name answer s)

unfoldable pub handler : List (Text × Option Text) → ℕ × Status
unfolding finish_all start
handler ended =
    let result = finish_all ended start in
    (if list_beq result.status (codes "ok") then 200 else 503, result)
