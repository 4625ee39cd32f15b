-- ===== src/Pii/Masked.antt =====
-- How much of a number a redaction shows.
use synapse_go.Base.{
  ◌+◌, ◌-◌, ◌≤◌, ◌≡◌, refl, ap, ◌∙◌, inl, inr, true, [], ◌∷◌, ◌++◌, arith, Bool-cases, length, take,
  drop, length-append, length-take, length-drop, nat_eq, Text, text_eq, codes, all_runes, is_digit,
}
use synapse_go.Pii.{keep_digits, last_of, redact_bank_card, redact_cn_phone}
use synapse_go.Utils.{is_valid_chinese_phone, mask_chinese_phone}

keep_digits_append : (a b : Text) → keep_digits (a ++ b) ≡ keep_digits a ++ keep_digits b
unfolding keep_digits
keep_digits_append [] b = refl
keep_digits_append (c ∷ a) b = elim (Bool-cases (is_digit c)) [
  | inl digit ↦ rw digit (ap (λ s. c ∷ s) (keep_digits_append a b))
  | inr mark ↦ rw mark (keep_digits_append a b)
]

length-keep_digits : (s : Text) → length (keep_digits s) ≤ length s
unfolding keep_digits
length-keep_digits [] = ground arith
length-keep_digits (c ∷ s) = ground (arith, length-keep_digits s)

keep_digits_all : (s : Text) → all_runes is_digit s ≡ true → keep_digits s ≡ s
unfolding keep_digits all_runes
keep_digits_all [] h = refl
keep_digits_all (c ∷ s) h = ground (arith, keep_digits_all s)

card_shown :
    (head tail : Text)
    → keep_digits (head ++ (codes " **** **** " ++ tail)) ≡ keep_digits head ++ keep_digits tail
unfolding keep_digits is_digit
card_shown head tail = keep_digits_append head (codes " **** **** " ++ tail)

-- Of a card number with 13 to 19 digits, a redaction shows eight digits at most, whatever spaces and
-- dashes the number is written with.
pub card_hidden :
    (match : Text)
    → 13 ≤ length (keep_digits match)
    → length (keep_digits match) ≤ 19
    → length (keep_digits (redact_bank_card match)) ≤ 8
unfolding redact_bank_card last_of
card_hidden match low high =
    let d = keep_digits match in
    let shown : redact_bank_card match
        ≡ take 4 d ++ (codes " **** **** " ++ drop (length d - 4) d) =
      ground arith in
    let count = length-append (keep_digits (take 4 d)) (keep_digits (drop (length d - 4) d)) in
    let first = length-keep_digits (take 4 d) in
    let last = length-keep_digits (drop (length d - 4) d) in
    let sizes = length-take 4 d in
    let sizes_last = length-drop (length d - 4) d in
    let whole : length (keep_digits (redact_bank_card match))
        ≡ length (keep_digits (take 4 d)) + length (keep_digits (drop (length d - 4) d)) =
      ap (λ t. length (keep_digits t)) shown
      ∙ ap length (card_shown (take 4 d) (drop (length d - 4) d))
      ∙ count in
    omega (arith, whole, first, last, sizes, sizes_last)

phone_digits :
    (s : Text) → is_valid_chinese_phone s ≡ true → (all_runes is_digit s ≡ true) × (length s ≡ 11)
unfolding is_valid_chinese_phone all_runes is_digit
phone_digits [] h = absurd (ground arith)
phone_digits (a ∷ []) h = absurd (ground arith)
phone_digits (a ∷ b ∷ s) h = ground arith

-- For a phone number that is valid by utils/phone.go, the two maskings of the repository agree: the
-- redaction of pii/pii.go and MaskChinesePhone.
same_mask : (s : Text) → is_valid_chinese_phone s ≡ true → redact_cn_phone s ≡ mask_chinese_phone s
unfolding redact_cn_phone mask_chinese_phone last_of
same_mask s h =
    let (digits, eleven) = phone_digits s h in ground (arith, keep_digits_all s digits, eleven)
