-- ===== src/Pii.antt =====
-- pii/pii.go: redaction. `replace_all` is ReplaceAllStringFunc of a rule's regular expression.
pub mod Masked
mod Tests
use synapse_go.Base.{
  ℕ, zero, suc, ◌+◌, ◌-◌, ◌*◌, ◌/◌, ◌%◌, ◌^◌, ◌≤◌, ◌<◌, min, ◌≡◌, refl, sym, ap, ap₂, subst, ◌∙◌,
  ◌≢◌, ◌↔◌, ◌⊎◌, inl, inr, Bool, true, false, not, ◌&&◌, ◌||◌, Option, none, some, List, [], ◌∷◌,
  ◌++◌, map, arith, ◌==◌, ==_iff, ltb, leb, if◌then◌else◌, ltb→lt, ltb_false→le, leb→le, Bool-cases,
  Option-cases, ap-if, Sum-cases, length, take, drop, length-append, length-take, length-drop, All,
  Any, here, there, ℤ, pos, negsuc, pos_part, neg_part, sub_ℕ, ◌+ℤ◌, ◌-ℤ◌, ◌≤ℤ◌, ◌<ℤ◌, ltb_ℤ, leb_ℤ,
  nonpos, +ℤ_parts, -ℤ_parts, eq_of_parts, int_laws, ltb_ℤ_false, eq_ℤ, eq_ℤ_refl, eq_of_eq_ℤ, Eq,
  nat_eq, beq_refl, beq_false, ne_of_beq, list_beq, list_beq_iff, lookup, insert, delete,
  lookup-insert, lookup-insert_self, lookup-insert_ne, lookup-delete, Text, text_eq, codes,
  is_empty, rune_len, byte_len, is_space, trim_left, trim_right, trim, trim_space, has_prefix,
  first_ok, last_ok, last_ok-trim_right, trim_id, first_ok-trim, last_ok-trim, trim_idem,
  trim_prefix, all_runes, Cases, upper_rune, lower_rune, to_upper, to_lower, ascii_cases, Time,
  Duration, is_zero, add_time, sub_time, after, seconds, digits_before, format_nat, format_int,
  read_digits, is_digit, IsDigit, read-format_nat, format_nat-IsDigit, format_nat_some, push_word,
  words, fields, words_one, words-append, words-space, pushed,
}

-- The rules, by their labels.
pub data Rule : Type 0 where
  jwt api_key bank_card email ipv4 ru_phone snils inn cn_phone cn_id : Rule

unfoldable pub keep_digits : Text → Text
keep_digits [] = []
keep_digits (c ∷ s) = let rest = keep_digits s in if is_digit c then c ∷ rest else rest

-- The last `n` characters.
unfoldable pub last_of : ℕ → Text → Text
last_of n s = drop (length s - n) s

-- The parts around the first mark.
unfoldable pub cut_at : ℕ → Text → Option (Text × Text)
cut_at m [] = none
cut_at m (c ∷ s) = elim (c == m) [
  | true ↦ some ([], s)
  | false ↦ elim (cut_at m s) [ some (p, r) ↦ some (c ∷ p, r) | none ↦ none ]
]

unfoldable pub email_of : Option (Text × Text) → Text
email_of none = codes "[REDACTED:EMAIL]"
email_of (some ([], domain)) = codes "[REDACTED:EMAIL]"
email_of (some (c ∷ rest, domain)) = c ∷ codes "***@" ++ domain

unfoldable pub redact_email : Text → Text
unfolding cut_at
redact_email match = email_of (cut_at b'@' match)

unfoldable pub redact_bank_card : Text → Text
redact_bank_card match =
    let digits = keep_digits match in
    if ltb (length digits) 13 || ltb 19 (length digits)
    then match
    else take 4 digits ++ (codes " **** **** " ++ last_of 4 digits)

-- `strings.Split(s, ".")`
unfoldable pub cut_dots : Text → Text × List Text
cut_dots [] = ([], [])
cut_dots (c ∷ s) = let (p, ps) = cut_dots s in if c == b'.' then ([], p ∷ ps) else (c ∷ p, ps)

unfoldable pub is_octet : Text → Bool
is_octet p = leb 1 (length p) && leb (length p) 3 && all_runes is_digit p

unfoldable pub octets : Text → Text × List Text → Text
octets match (a, b ∷ c ∷ d ∷ []) =
    if is_octet a && is_octet b && is_octet c && is_octet d
    then a ++ (codes "." ++ (b ++ codes ".*.*"))
    else match
octets match _ = match

unfoldable pub redact_ipv4 : Text → Text
unfolding octets cut_dots
redact_ipv4 match = octets match (cut_dots match)

unfoldable pub starts_with : ℕ → Text → Bool
starts_with r [] = false
starts_with r (c ∷ s) = c == r

unfoldable pub redact_ru_phone : Text → Text
redact_ru_phone match =
    let digits = keep_digits match in
    let shown = codes "+7-" ++ (take 3 (drop 1 digits) ++ (codes "-***-**-" ++ last_of 2 digits)) in
    if ltb (length digits) 11
    then match
    else if starts_with b'8' digits && length digits == 11
    then shown
    else if starts_with b'7' digits
    then shown
    else codes "+7-***-***-**-" ++ last_of 2 digits

unfoldable pub redact_cn_phone : Text → Text
redact_cn_phone match =
    let digits = keep_digits match in
    if length digits == 11 then take 3 digits ++ (codes "****" ++ last_of 4 digits) else match

unfoldable pub redact_inn_candidate : Text → Text
redact_inn_candidate match =
    if byte_len match == 10 || byte_len match == 12 then codes "[REDACTED:INN]" else match

unfoldable pub apply : Rule → Text → Text
apply jwt match = codes "[REDACTED:JWT]"
apply api_key match = codes "[REDACTED:APIKEY]"
apply bank_card match = redact_bank_card match
apply email match = redact_email match
apply ipv4 match = redact_ipv4 match
apply ru_phone match = redact_ru_phone match
apply snils match = codes "[REDACTED:SNILS]"
apply inn match = redact_inn_candidate match
apply cn_phone match = redact_cn_phone match
apply cn_id match = codes "[REDACTED:CN_ID]"

abbrev pub universal_rules : List Rule
universal_rules = jwt ∷ api_key ∷ bank_card ∷ email ∷ ipv4 ∷ []

abbrev pub ru_rules : List Rule
ru_rules = ru_phone ∷ snils ∷ inn ∷ []

abbrev pub cn_rules : List Rule
cn_rules = cn_phone ∷ cn_id ∷ []

-- The text before the first `_` or `-`, unless one of them comes first or none comes.
unfoldable pub before_mark : Text → Text
before_mark [] = []
before_mark (c ∷ s) = let rest = before_mark s in if c == b'_' || c == b'-' then [] else c ∷ rest

unfoldable pub hint_of : Cases → Text → Text
hint_of u raw =
    let hint = to_lower u (trim_space raw) in
    if is_empty (before_mark hint) then hint else before_mark hint

-- The rules of the jurisdiction that come before the universal ones.
unfoldable pub first_rules : Text → List Rule
first_rules hint =
    if list_beq hint (codes "ru")
    then ru_rules
    else if list_beq hint (codes "cn")
    then cn_rules
    else if list_beq hint (codes "en")
    then []
    else ru_rules ++ cn_rules

module _ (u : Cases) (replace_all : Rule → (Text → Text) → Text → Text) where
  unfoldable pub apply_rule : Text → Rule → Text
  apply_rule s r = replace_all r (apply r) s

  unfoldable pub apply_rules : List Rule → Text → Text
  apply_rules [] s = s
  apply_rules (r ∷ rs) s = apply_rules rs (apply_rule s r)

  unfoldable pub redact_string : Text → Text → Text
  redact_string language s =
      if is_empty s
      then s
      else apply_rules universal_rules (apply_rules (first_rules (hint_of u language)) s)
