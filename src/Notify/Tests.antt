-- ===== src/Notify/Tests.antt =====
-- A channel whose third attempt succeeds.
use synapse_go.Base.{
  ℕ, ◌≡◌, refl, Bool, false, Option, none, some, [], ◌==◌, if◌then◌else◌, pos, nat_eq, Text,
  text_eq, codes, rune_len, byte_len, is_space, trim_left, trim_right, trim, all_runes, lower_rune,
  ascii_cases, is_digit,
}
use synapse_go.Notify.{
  sent, all_failed, should_retry, send_from, send, Message, ValidationLimits, or_limit,
  with_defaults, is_lower, type_pattern, normalize_type, validate_message,
}
use synapse_go.Notify.Attempts.{failed, Ends, send-Ends}

abbrev third : ℕ → Option Text
third i = if i == 2 then none else some (codes "busy")

abbrev never : ℕ → Bool
never k = false

program : Unit {0}
unfolding send send_from should_retry Ends failed validate_message with_defaults or_limit
    normalize_type type_pattern all_runes is_lower is_digit lower_rune byte_len rune_len trim
    trim_left trim_right is_space
program = tt

send-Ends_example : Ends third never 3 (sent 2)
unfolding program
send-Ends_example = send-Ends third never 3 (λ k. refl)

all_busy : send third never 1 ≡ all_failed (some (codes "busy"))
unfolding program
all_busy = refl

abbrev welcome : Message
welcome = record {
  tenant_id = codes "t1";
  recipient_principal_id = codes "p1";
  type_name = codes " User.Welcome";
  subject = codes "Hello";
  payload = [];
}

abbrev no_limits : ValidationLimits
no_limits = record {
  max_type_length = pos 0;
  max_payload_bytes = pos 0;
  max_subject_length = pos 0;
}

valid_welcome : validate_message ascii_cases (λ t. false) welcome no_limits ≡ none
unfolding program
valid_welcome = refl
