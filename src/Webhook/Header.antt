-- ===== src/Webhook/Header.antt =====
-- What is read from a header that has been written.
use synapse_go.Base.{
  ℕ, ◌^◌, ◌<◌, ◌≡◌, refl, ap, ◌∙◌, inr, true, false, not, some, List, [], ◌∷◌, ◌++◌, arith, ◌==◌,
  All, pos, nat_eq, Text, text_eq, codes, is_empty, is_space, trim_space, has_prefix, last_ok,
  trim_id, trim_prefix, all_runes, format_nat, read_digits, is_digit, IsDigit, read-format_nat,
  format_nat-IsDigit, format_nat_some,
}
use synapse_go.Webhook.{
  cut_commas, split_commas, parse_digits, parse_int, is_hex_digit, decodes, read_timestamp,
  read_part, read_parts, checked_parts, parse_header,
}

-- No comma and no space.
unfoldable pub IsPlain : ℕ → Type 0
IsPlain c = ((c == b',') ≡ false) × (is_space c ≡ false)

digit-IsPlain : (c : ℕ) → IsDigit c → IsPlain c
unfolding IsPlain IsDigit is_space
digit-IsPlain c h = (ground (arith, h.0, h.1), ground (arith, h.0, h.1))

digits-IsPlain : (s : Text) → All IsDigit s → All IsPlain s
digits-IsPlain [] h = tt
digits-IsPlain (c ∷ s) h = (digit-IsPlain c h.0, digits-IsPlain s h.1)

hex-IsPlain : (c : ℕ) → is_hex_digit c ≡ true → IsPlain c
unfolding IsPlain is_hex_digit is_digit is_space
hex-IsPlain c h = (ground arith, ground arith)

hexes-IsPlain : (s : Text) → all_runes is_hex_digit s ≡ true → All IsPlain s
unfolding all_runes
hexes-IsPlain [] h = tt
hexes-IsPlain (c ∷ s) h = (hex-IsPlain c (ground arith), hexes-IsPlain s (ground arith))

cut_commas-plain : (a : Text) → All IsPlain a → cut_commas a ≡ (a, [])
unfolding cut_commas IsPlain
cut_commas-plain [] h = refl
cut_commas-plain (c ∷ a) h = rw (cut_commas-plain a h.1) (rw h.0.0 refl)

cut_commas-append :
    (a s : Text)
    → All IsPlain a
    → cut_commas (a ++ b',' ∷ s) ≡ (a, (cut_commas s).0 ∷ (cut_commas s).1)
unfolding cut_commas IsPlain
cut_commas-append [] s h = refl
cut_commas-append (c ∷ a) s h = rw (cut_commas-append a s h.1) (rw h.0.0 refl)

last_ok-plain : (s : Text) → All IsPlain s → last_ok is_space s ≡ true
unfolding last_ok IsPlain
last_ok-plain [] h = refl
last_ok-plain (c ∷ []) h = ap not h.0.1
last_ok-plain (c ∷ d ∷ s) h = last_ok-plain (d ∷ s) h.1

trim-plain : (s : Text) → All IsPlain s → trim_space s ≡ s
unfolding IsPlain
trim-plain [] h = trim_id is_space [] refl (last_ok-plain [] h)
trim-plain (c ∷ s) h = trim_id is_space (c ∷ s) (ap not h.0.1) (last_ok-plain (c ∷ s) h)

all-is_digit : (s : Text) → All IsDigit s → all_runes is_digit s ≡ true
unfolding all_runes is_digit IsDigit
all-is_digit [] h = refl
all-is_digit (c ∷ s) h = ground (arith, h.0.0, h.0.1, all-is_digit s h.1)

parse_digits_plain :
    (c n : ℕ) (s : Text)
    → All IsDigit (c ∷ s)
    → read_digits 0 (c ∷ s) ≡ n
    → n < 2 ^ 63
    → parse_int (c ∷ s) ≡ some (pos n)
unfolding parse_int parse_digits IsDigit
parse_digits_plain c n s h v small = ground (arith, h.0.0, h.0.1, all-is_digit (c ∷ s) h, v)

parsed_digits :
    (n : ℕ) (s : Text)
    → All IsDigit s
    → is_empty s ≡ false
    → read_digits 0 s ≡ n
    → n < 2 ^ 63
    → parse_int s ≡ some (pos n)
parsed_digits n [] h e v small = absurd (ground arith)
parsed_digits n (c ∷ s) h e v small = parse_digits_plain c n s h v small

-- `strconv.ParseInt` reads what `%d` has written.
pub parse-format_nat : (n : ℕ) → n < 2 ^ 63 → parse_int (format_nat n) ≡ some (pos n)
parse-format_nat n small =
    parsed_digits n (format_nat n) (format_nat-IsDigit n) (format_nat_some n) (read-format_nat n)
      small

-- The two parts of a header that has been written.
abbrev pub written : ℕ → Text → Text
written unix signature = codes "t=" ++ (format_nat unix ++ (codes ",v1=" ++ signature))

split_written :
    (unix : ℕ) (signature : Text)
    → all_runes is_hex_digit signature ≡ true
    → split_commas (written unix signature)
      ≡ (codes "t=" ++ format_nat unix) ∷ (codes "v1=" ++ signature) ∷ []
unfolding split_commas IsPlain is_space
split_written unix signature h =
    let number = digits-IsPlain (format_nat unix) (format_nat-IsDigit unix) in
    let first : All IsPlain (codes "t=" ++ format_nat unix) =
      ((refl, refl), ((refl, refl), number)) in
    let second =
      cut_commas-plain (codes "v1=" ++ signature)
        ((refl, refl), ((refl, refl), ((refl, refl), hexes-IsPlain signature h))) in
    ap (λ (x : Text × List Text). x.0 ∷ x.1)
      (cut_commas-append (codes "t=" ++ format_nat unix) (codes "v1=" ++ signature) first
        ∙ ap (λ (x : Text × List Text). (codes "t=" ++ format_nat unix, x.0 ∷ x.1)) second)

timestamp_read :
    (unix : ℕ)
    → 0 < unix
    → unix < 2 ^ 63
    → read_part (codes "t=" ++ format_nat unix) (pos 0, []) ≡ some (pos unix, [])
unfolding read_part read_timestamp has_prefix trim_prefix IsPlain is_space
timestamp_read unix some_time small =
    let number = digits-IsPlain (format_nat unix) (format_nat-IsDigit unix) in
    rw (trim-plain (codes "t=" ++ format_nat unix) ((refl, refl), ((refl, refl), number)))
      (rw (parse-format_nat unix small) (ground arith))

signature_read :
    (unix : ℕ) (signature : Text)
    → all_runes is_hex_digit signature ≡ true
    → read_part (codes "v1=" ++ signature) (pos unix, []) ≡ some (pos unix, signature)
unfolding read_part has_prefix trim_prefix IsPlain is_space
signature_read unix signature h =
    rw
      (trim-plain (codes "v1=" ++ signature)
        ((refl, refl), ((refl, refl), ((refl, refl), hexes-IsPlain signature h))))
      refl

pub parse_written :
    (unix : ℕ) (signature : Text)
    → 0 < unix
    → unix < 2 ^ 63
    → decodes signature ≡ true
    → is_empty signature ≡ false
    → parse_header (written unix signature) ≡ inr (pos unix, signature)
unfolding parse_header read_parts checked_parts decodes
parse_written unix signature some_time small hex ne =
    let runes : all_runes is_hex_digit signature ≡ true = ground arith in
    ap (λ ps. checked_parts (read_parts ps (some (pos 0, [])))) (split_written unix signature runes)
    ∙ ap checked_parts (
        ap (read_parts ((codes "v1=" ++ signature) ∷ [])) (timestamp_read unix some_time small)
        ∙ ap (read_parts []) (signature_read unix signature runes))
    ∙ ground arith
