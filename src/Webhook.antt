-- ===== src/Webhook.antt =====
-- webhook/webhook.go: signed headers. Times are nanoseconds since the Unix epoch, and `mac` is the
-- hexadecimal HMAC-SHA256 of a text under a key.
pub mod Header
pub mod Signed
mod Tests
use synapse_go.Base.{
  ℕ, zero, suc, ◌+◌, ◌-◌, ◌*◌, ◌/◌, ◌%◌, ◌^◌, ◌≤◌, ◌<◌, min, ◌≡◌, refl, sym, ap, ap₂, subst, ◌∙◌,
  ◌≢◌, ◌↔◌, ◌⊎◌, inl, inr, Bool, true, false, not, ◌&&◌, ◌||◌, Option, none, some, List, [], ◌∷◌,
  ◌++◌, map, arith, ◌==◌, ==_iff, ltb, leb, if◌then◌else◌, ltb→lt, ltb_false→le, leb→le, Bool-cases,
  Option-cases, ap-if, Sum-cases, length, take, drop, length-append, length-take, length-drop, All,
  Any, here, there, ℤ, pos, negsuc, pos_part, neg_part, sub_ℕ, ◌+ℤ◌, ◌-ℤ◌, ◌≤ℤ◌, ◌<ℤ◌, ltb_ℤ, leb_ℤ,
  nonpos, +ℤ_parts, -ℤ_parts, eq_of_parts, int_laws, ltb_ℤ_false, eq_ℤ, eq_ℤ_refl, eq_of_eq_ℤ, Eq,
  nat_eq, beq_refl, beq_false, ne_of_beq, list_beq, list_beq_iff, lookup, insert, delete,
  lookup-insert, lookup-insert_self, lookup-insert_ne, lookup-delete, Text, text_eq, codes,
  is_empty, rune_len, byte_len, is_space, trim_left, trim_right, trim, trim_space, has_prefix,
  first_ok, last_ok, last_ok-trim_right, trim_id, first_ok-trim, last_ok-trim, trim_idem,
  trim_prefix, all_runes, Cases, upper_rune, lower_rune, to_upper, to_lower, ascii_cases, Time,
  Duration, is_zero, add_time, sub_time, after, seconds, digits_before, format_nat, format_int,
  read_digits, is_digit, IsDigit, read-format_nat, format_nat-IsDigit, format_nat_some, push_word,
  words, fields, words_one, words-append, words-space, pushed,
}

pub data Err : Type 0 where
  invalid_secret invalid_signature timestamp_skew : Err

-- `strings.Split(s, ",")`: the part before the first comma, and the others.
unfoldable pub cut_commas : Text → Text × List Text
cut_commas [] = ([], [])
cut_commas (c ∷ s) = let (p, ps) = cut_commas s in if c == b',' then ([], p ∷ ps) else (c ∷ p, ps)

unfoldable pub split_commas : Text → List Text
split_commas s = let (p, ps) = cut_commas s in p ∷ ps

-- `strconv.ParseInt(s, 10, 64)`
unfoldable pub parse_digits : Bool → Text → Option ℤ
parse_digits negative s =
    let n = read_digits 0 s in
    if is_empty s || not (all_runes is_digit s)
    then none
    else if negative
    then (if leb n (2 ^ 63) then some (pos 0 -ℤ pos n) else none)
    else if ltb n (2 ^ 63)
    then some (pos n)
    else none

unfoldable pub parse_int : Text → Option ℤ
parse_int [] = none
parse_int (c ∷ s) =
    if c == b'-'
    then parse_digits true s
    else if c == b'+'
    then parse_digits false s
    else parse_digits false (c ∷ s)

-- Whether `hex.DecodeString` succeeds.
unfoldable pub is_hex_digit : ℕ → Bool
is_hex_digit c = is_digit c || (leb 97 c && ltb c 103) || (leb 65 c && ltb c 71)

unfoldable pub decodes : Text → Bool
decodes s = all_runes is_hex_digit s && length s % 2 == 0

-- The timestamp and the signature that have been read so far; none after an error.
unfoldable pub read_timestamp : Option ℤ → Text → Option (ℤ × Text)
read_timestamp none signature = none
read_timestamp (some n) signature = if nonpos n then none else some (n, signature)

unfoldable pub read_part : Text → ℤ × Text → Option (ℤ × Text)
unfolding read_timestamp
read_part raw (timestamp, signature) =
    let part = trim_space raw in
    if has_prefix part (codes "t=")
    then read_timestamp (parse_int (trim_prefix part (codes "t="))) signature
    else if has_prefix part (codes "v1=")
    then some (timestamp, trim_prefix part (codes "v1="))
    else some (timestamp, signature)

unfoldable pub read_parts : List Text → Option (ℤ × Text) → Option (ℤ × Text)
unfolding read_part
read_parts ps none = none
read_parts [] (some r) = some r
read_parts (p ∷ ps) (some r) = read_parts ps (read_part p r)

unfoldable pub checked_parts : Option (ℤ × Text) → Err ⊎ (ℤ × Text)
checked_parts none = inl invalid_signature
checked_parts (some (timestamp, signature)) =
    if eq_ℤ timestamp (pos 0) || is_empty signature
    then inl invalid_signature
    else if decodes signature
    then inr (timestamp, signature)
    else inl invalid_signature

unfoldable pub parse_header : Text → Err ⊎ (ℤ × Text)
unfolding checked_parts read_parts split_commas
parse_header header = checked_parts (read_parts (split_commas header) (some (pos 0, [])))

-- The largest and the smallest Duration, an int64.
abbrev pub max_duration : Duration
max_duration = pos 9223372036854775807

abbrev pub min_duration : Duration
min_duration = negsuc 9223372036854775807

-- The negation of int64 leaves the smallest number as it is.
unfoldable pub abs_duration : Duration → Duration
abs_duration d = if ltb_ℤ d (pos 0) then (if eq_ℤ d min_duration then d else pos 0 -ℤ d) else d

-- The nanoseconds from `time.Unix(n, 0)` to `now`, without a bound.
unfoldable pub nanoseconds_since : Time → ℤ → ℤ
nanoseconds_since now n = pos now -ℤ (pos (seconds (pos_part n)) -ℤ pos (seconds (neg_part n)))

-- `Sub` gives the largest or the smallest Duration where the difference is out of range.
unfoldable pub saturated : ℤ → Duration
saturated d =
    if ltb_ℤ max_duration d then max_duration else if ltb_ℤ d min_duration then min_duration else d

-- `now.Sub(time.Unix(n, 0))`
unfoldable pub since_unix : Time → ℤ → Duration
unfolding saturated nanoseconds_since
since_unix now n = saturated (nanoseconds_since now n)

module _ (mac : Text → Text → Text) where
  unfoldable pub compute_signature : Text → ℤ → Text → Text
  compute_signature secret timestamp payload = mac secret (format_int timestamp ++ b'.' ∷ payload)

  unfoldable pub sign_header : Text → Time → Text → Err ⊎ Text
  unfolding compute_signature
  sign_header secret timestamp payload =
      let unix = pos (timestamp / seconds 1) in
      if is_empty (trim_space secret)
      then inl invalid_secret
      else inr (
          codes "t="
          ++ (format_int unix ++ (codes ",v1=" ++ compute_signature secret unix payload)))

  unfoldable pub verify_parsed : Text → Text → Time → Duration → Err ⊎ (ℤ × Text) → Option Err
  unfolding compute_signature
  verify_parsed secret payload now tolerance (inl e) = some e
  verify_parsed secret payload now tolerance (inr (timestamp, signature)) =
      if ltb_ℤ (pos 0) tolerance && ltb_ℤ tolerance (abs_duration (since_unix now timestamp))
      then some timestamp_skew
      else if list_beq (compute_signature secret timestamp payload) signature
      then none
      else some invalid_signature

  unfoldable pub verify_header : Text → Text → Text → Time → Duration → Option Err
  unfolding verify_parsed parse_header
  verify_header secret header payload now tolerance =
      if is_empty (trim_space secret)
      then some invalid_secret
      else verify_parsed secret payload now tolerance (parse_header header)
