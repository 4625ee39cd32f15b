-- ===== src/Events/Service.antt =====
-- reliableevents/service.go, over the repository of repo.go.
use synapse_go.Base.{
  ℕ, ◌⊎◌, inl, inr, Bool, true, false, ◌||◌, Option, none, some, [], ◌∷◌, ◌==◌, ltb, if◌then◌else◌,
  ℤ, pos, ltb_ℤ, nonpos, nat_eq, Text, text_eq, is_empty, byte_len, trim_space, Time,
}
use synapse_go.Events.{
  Row, EventProcessed, Tables, Err, invalid_input, mark_failed, mark_sent, insert_outbox,
  is_processed_row, mark_processed_row,
}

pub record PublishInput : Type 0 where
  pub event_id : Text
  pub tenant_id : ℕ
  pub event_type : Text
  pub source : Text
  pub correlation_id : Text
  pub actor : Option Text  -- what `json.Marshal` makes of it, `none` for an error
  pub payload : Option Text

unfoldable pub some_text : Text → Option Text
some_text [] = none
some_text (c ∷ s) = some (c ∷ s)

unfoldable pub or_new : Text → Text → Text
or_new [] new = new
or_new (c ∷ s) new = c ∷ s

unfoldable pub outbox_row : Text → Time → PublishInput → Text → Text → Row
unfolding some_text or_new
outbox_row new_id now i actor payload = record {
  id = 0;
  event_id = or_new (trim_space i.event_id) new_id;
  tenant_id = i.tenant_id;
  event_type = trim_space i.event_type;
  version = 1;
  correlation_id = some_text (trim_space i.correlation_id);
  actor = actor;
  source = trim_space i.source;
  payload = payload;
  status = 0;
  retry_count = 0;
  next_retry_at = none;
  occurred_at = now;
  sent_at = none;
}

unfoldable pub marshalled : Text → Time → PublishInput → Option Text → Option Text → Err ⊎ Row
unfolding outbox_row
marshalled new_id now i (some actor) (some payload) = inr (outbox_row new_id now i actor payload)
marshalled new_id now i (some actor) none = inl invalid_input
marshalled new_id now i none payload = inl invalid_input

-- `new_id` is what `newEventID` makes of a fresh UUID.
unfoldable pub build_outbox : Text → Time → PublishInput → Err ⊎ Row
unfolding marshalled
build_outbox new_id now i =
    if i.tenant_id == 0
      || is_empty (trim_space i.event_type)
      || is_empty (trim_space i.source)
      || ltb 32 (byte_len (trim_space i.event_id))
    then inl invalid_input
    else marshalled new_id now i i.actor i.payload

-- The id that the database gives to the row is not modelled: the row that is returned has id 0.
unfoldable pub inserted : Row → Option Err × Tables → (Err ⊎ Row) × Tables
inserted r (some e, t) = (inl e, t)
inserted r (none, t) = (inr r, t)

unfoldable pub publish : Bool → Text → Time → PublishInput → Tables → (Err ⊎ Row) × Tables
unfolding build_outbox inserted
publish fault new_id now i t = elim (build_outbox new_id now i) [
  | inl e ↦ (inl e, t)
  | inr r ↦ inserted r (insert_outbox fault r t)
]

unfoldable pub is_processed : Bool → Text → Text → Tables → Err ⊎ Bool
is_processed fault consumer event t =
    if is_empty (trim_space consumer) || is_empty (trim_space event)
    then inl invalid_input
    else is_processed_row fault consumer event t

unfoldable pub normalize_limit : ℤ → ℤ
normalize_limit n = if nonpos n || ltb_ℤ (pos 100) n then pos 50 else n

unfoldable pub service_mark_sent : Bool → Time → ℕ → Tables → Option Err × Tables
service_mark_sent fault now id t =
    if id == 0 then (some invalid_input, t) else mark_sent fault now id t

unfoldable pub service_mark_failed : Bool → Time → ℕ → Tables → Option Err × Tables
service_mark_failed fault now id t =
    if id == 0 then (some invalid_input, t) else mark_failed fault now id t

unfoldable pub after_lookup : Err ⊎ Bool → Bool → EventProcessed → Tables → Option Err × Tables
after_lookup (inl e) fault p t = (some e, t)
after_lookup (inr true) fault p t = (none, t)
after_lookup (inr false) fault p t = mark_processed_row fault p t

-- `none` is a nil event; the two faults are those of the two calls of the repository.
unfoldable pub mark_processed :
    Bool → Bool → Time → Text → Option Row → Tables → Option Err × Tables
unfolding after_lookup
mark_processed read_fault write_fault now consumer none t = (some invalid_input, t)
mark_processed read_fault write_fault now consumer (some e) t =
    let name = trim_space consumer in
    if is_empty name || is_empty e.event_id || e.tenant_id == 0
    then (some invalid_input, t)
    else after_lookup (is_processed_row read_fault name e.event_id t) write_fault
        (record {
          consumer_name = name;
          event_id = e.event_id;
          tenant_id = e.tenant_id;
          processed_at = now;
        })
        t
