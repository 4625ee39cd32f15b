-- ===== src/Webhook/Tests.antt =====
-- A header for one payload.
use synapse_go.Base.{
  ◌+◌, ◌*◌, ◌%◌, ◌≡◌, refl, ◌⊎◌, inr, none, some, [], ◌∷◌, arith, length, ℤ, pos, ◌-ℤ◌, ◌≤ℤ◌,
  nat_eq, list_beq, Text, text_eq, codes, is_space, trim_left, trim_right, trim, has_prefix,
  trim_prefix, all_runes, digits_before, format_nat, format_int, read_digits, is_digit,
}
use synapse_go.Webhook.{
  invalid_signature, cut_commas, split_commas, parse_digits, parse_int, is_hex_digit, decodes,
  read_timestamp, read_part, read_parts, checked_parts, parse_header, abs_duration,
  nanoseconds_since, saturated, since_unix, compute_signature, sign_header, verify_parsed,
  verify_header,
}
use synapse_go.Webhook.Signed.{IsClose, verify-sign_header, verified_exact}

-- A MAC of two digits, by the lengths of the key and the text.
abbrev short_mac : Text → Text → Text
short_mac key t = (48 + length key % 10) ∷ (48 + length t % 10) ∷ []

abbrev header : Text
header = codes "t=1700000000,v1=65"

program : Unit {0}
unfolding sign_header verify_header verify_parsed parse_header checked_parts read_parts read_part
    read_timestamp parse_int parse_digits read_digits is_digit all_runes split_commas cut_commas
    compute_signature format_int format_nat digits_before decodes is_hex_digit has_prefix
    trim_prefix trim trim_left trim_right is_space abs_duration saturated nanoseconds_since
    since_unix list_beq ◌-ℤ◌
program = tt

verify-sign_header_example :
    verify_header short_mac
      (codes "secret")
      header
      (codes "{ ok")
      (1700000100 * 1000000000)
      (pos (300 * 1000000000))
    ≡ none
unfolding program
verify-sign_header_example =
    verify-sign_header short_mac (codes "secret") (codes "{ ok") header (1700000000 * 1000000000)
      (1700000100 * 1000000000) (300 * 1000000000) refl (omega arith) (omega arith) refl refl
      (omega arith) (omega arith) refl

verified_exact_example :
    (timestamp : ℤ) × (parse_header header
      ≡ inr (timestamp, compute_signature short_mac (codes "secret") timestamp (codes "{ ok")))
    × ((pos 0 ≤ℤ pos 0) ⊎ IsClose (pos 0) (nanoseconds_since 5 timestamp))
unfolding program
verified_exact_example =
    verified_exact short_mac (codes "secret") (codes "{ ok") header 5 (pos 0) (omega arith) refl

-- A timestamp that is 300 years ahead passes a tolerance of 300 seconds.
far_ahead :
    verify_header short_mac
      (codes "secret")
      (codes "t=11160640000,v1=66")
      (codes "{ ok")
      (1700000000 * 1000000000)
      (pos (300 * 1000000000))
    ≡ none
unfolding program
far_ahead = refl

altered :
    verify_header short_mac (codes "secret") header (codes "{ oks") 5 (pos 0)
    ≡ some invalid_signature
unfolding program
altered = refl
