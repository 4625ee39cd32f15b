-- ===== src/Pii/Tests.antt =====
-- A card number with spaces, and a phone number.
use synapse_go.Base.{◌≤◌, ◌≡◌, refl, arith, length, nat_eq, text_eq, codes, all_runes, is_digit}
use synapse_go.Pii.{
  keep_digits, last_of, cut_at, email_of, redact_email, redact_bank_card, cut_dots, is_octet,
  octets, redact_ipv4, redact_cn_phone,
}
use synapse_go.Pii.Masked.{card_hidden}

program : Unit {0}
unfolding redact_bank_card keep_digits is_digit last_of redact_cn_phone redact_email email_of cut_at
    redact_ipv4 octets cut_dots is_octet all_runes
program = tt

card_hidden_example : length (keep_digits (redact_bank_card (codes "4111 1111 1111 1234"))) ≤ 8
unfolding program
card_hidden_example = card_hidden (codes "4111 1111 1111 1234") (omega arith) (omega arith)

shown : redact_bank_card (codes "4111 1111 1111 1234") ≡ codes "4111 **** **** 1234"
unfolding program
shown = refl

mail : redact_email (codes "ann@example.org") ≡ codes "a***@example.org"
unfolding program
mail = refl

host : redact_ipv4 (codes "192.0.2.17") ≡ codes "192.0.*.*"
unfolding program
host = refl
