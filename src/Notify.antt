-- ===== src/Notify.antt =====
-- notify/notify.go: retries and the answer of a webhook; notification/notification.go: the limits of
-- a message. What the channel answers to an attempt, whether the context ends while the notifier
-- waits, and whether a payload is JSON are arguments.
pub mod Attempts
mod Tests
use synapse_go.Base.{
  ℕ, zero, suc, ◌+◌, ◌-◌, ◌*◌, ◌/◌, ◌%◌, ◌^◌, ◌≤◌, ◌<◌, min, ◌≡◌, refl, sym, ap, ap₂, subst, ◌∙◌,
  ◌≢◌, ◌↔◌, ◌⊎◌, inl, inr, Bool, true, false, not, ◌&&◌, ◌||◌, Option, none, some, List, [], ◌∷◌,
  ◌++◌, map, arith, ◌==◌, ==_iff, ltb, leb, if◌then◌else◌, ltb→lt, ltb_false→le, leb→le, Bool-cases,
  Option-cases, ap-if, Sum-cases, length, take, drop, length-append, length-take, length-drop, All,
  Any, here, there, ℤ, pos, negsuc, pos_part, neg_part, sub_ℕ, ◌+ℤ◌, ◌-ℤ◌, ◌≤ℤ◌, ◌<ℤ◌, ltb_ℤ, leb_ℤ,
  nonpos, +ℤ_parts, -ℤ_parts, eq_of_parts, int_laws, ltb_ℤ_false, eq_ℤ, eq_ℤ_refl, eq_of_eq_ℤ, Eq,
  nat_eq, beq_refl, beq_false, ne_of_beq, list_beq, list_beq_iff, lookup, insert, delete,
  lookup-insert, lookup-insert_self, lookup-insert_ne, lookup-delete, Text, text_eq, codes,
  is_empty, rune_len, byte_len, is_space, trim_left, trim_right, trim, trim_space, has_prefix,
  first_ok, last_ok, last_ok-trim_right, trim_id, first_ok-trim, last_ok-trim, trim_idem,
  trim_prefix, all_runes, Cases, upper_rune, lower_rune, to_upper, to_lower, ascii_cases, Time,
  Duration, is_zero, add_time, sub_time, after, seconds, digits_before, format_nat, format_int,
  read_digits, is_digit, IsDigit, read-format_nat, format_nat-IsDigit, format_nat_some, push_word,
  words, fields, words_one, words-append, words-space, pushed,
}

pub data Outcome : Type 0 where
  sent : ℕ → Outcome
  context_done : Outcome
  all_failed : Option Text → Outcome

-- `WithRetry` takes a negative number for none.
unfoldable pub with_retry : ℤ → ℕ
with_retry n = if ltb_ℤ n (pos 0) then 0 else pos_part n

-- timeutil.ShouldRetry
unfoldable pub should_retry : ℕ → ℕ → Bool
should_retry attempt max_retries = ltb attempt max_retries

module _ (answer : ℕ → Option Text) (done : ℕ → Bool) (max_retries : ℕ) where
  -- The attempts from `i` on, of which `left` are left; `sent i` names the attempt that succeeded.
  unfoldable pub send_from : ℕ → ℕ → Option Text → Outcome
  unfolding should_retry
  send_from zero i last = all_failed last
  send_from (suc left) i last =
      let rest = send_from left (suc i) (answer i) in
      elim (answer i) [
        | none ↦ sent i
        | some e ↦ if should_retry i max_retries && done i then context_done else rest
      ]

  unfoldable pub send : Outcome
  unfolding send_from
  send = send_from (suc max_retries) 0 none

-- A webhook: the marshalled body, whether a request can be made of it, and the status that comes
-- back, if any.
unfoldable pub status_error : Option ℕ → Option Text
status_error none = some (codes "notify send")
status_error (some status) =
    if leb 400 status then some (codes "notify: webhook returned") else none

unfoldable pub webhook_send : Option Text → Bool → Option ℕ → Option Text
webhook_send none request response = some (codes "notify marshal")
webhook_send (some body) false response = some (codes "notify request")
webhook_send (some body) true response = status_error response

pub data MessageErr : Type 0 where
  invalid_message invalid_payload : MessageErr

pub record Message : Type 0 where
  pub tenant_id : Text
  pub recipient_principal_id : Text
  pub type_name : Text
  pub subject : Text
  pub payload : Text

pub record ValidationLimits : Type 0 where
  pub max_type_length : ℤ
  pub max_payload_bytes : ℤ
  pub max_subject_length : ℤ

unfoldable pub or_limit : ℤ → ℤ → ℤ
or_limit n default = if eq_ℤ n (pos 0) then default else n

unfoldable pub with_defaults : ValidationLimits → ValidationLimits
unfolding or_limit
with_defaults l = record {
  max_type_length = or_limit l.max_type_length (pos 128);
  max_payload_bytes = or_limit l.max_payload_bytes (pos 16384);
  max_subject_length = or_limit l.max_subject_length (pos 200);
}

unfoldable pub is_lower : ℕ → Bool
is_lower c = leb 97 c && ltb c 123

-- `^[a-z][a-z0-9_.-]*$`
unfoldable pub type_pattern : Text → Bool
type_pattern [] = false
type_pattern (c ∷ s) =
    is_lower c && all_runes (λ d. is_lower d || is_digit d || d == b'_' || d == b'.' || d == b'-') s

unfoldable pub normalize_type : Cases → Text → Text
normalize_type u t = to_lower u (trim_space t)

unfoldable pub validate_message :
    Cases → (Text → Bool) → Message → ValidationLimits → Option MessageErr
unfolding with_defaults normalize_type
validate_message u is_json msg given =
    let limits = with_defaults given in
    let type = normalize_type u msg.type_name in
    if is_empty (trim_space msg.tenant_id) || is_empty (trim_space msg.recipient_principal_id)
    then some invalid_message
    else if is_empty type
        || ltb_ℤ limits.max_type_length (pos (byte_len type))
        || not (type_pattern type)
    then some invalid_message
    else if ltb_ℤ limits.max_subject_length (pos (length (trim_space msg.subject)))
    then some invalid_message
    else if ltb_ℤ limits.max_payload_bytes (pos (byte_len msg.payload))
    then some invalid_payload
    else if not (is_empty msg.payload) && not (is_json msg.payload)
    then some invalid_payload
    else none
