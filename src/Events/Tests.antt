-- ===== src/Events/Tests.antt =====
-- An event that is published, fails and is processed.
use synapse_go.Base.{
  ◌≡◌, refl, inl, inr, false, none, some, [], ◌∷◌, nat_eq, list_beq, text_eq, codes, rune_len,
  byte_len, is_space, trim_left, trim_right, trim,
}
use synapse_go.Events.{
  Row, Tables, duplicate_event, is_due, failed_row, update_row, mark_failed, is_event, has_event,
  insert_outbox, same_pair, count_pair, is_processed_row, mark_processed_row,
}
use synapse_go.Events.Service.{
  PublishInput, some_text, or_new, outbox_row, marshalled, build_outbox, inserted, publish,
  is_processed, after_lookup, mark_processed,
}
use synapse_go.Events.Retries.{fail_all, retry_schedule}
use synapse_go.Events.Processed.{processed_exact}

program : Unit {0}
unfolding build_outbox marshalled outbox_row some_text or_new publish inserted insert_outbox
    has_event is_event mark_failed update_row failed_row fail_all is_due mark_processed after_lookup
    is_processed_row mark_processed_row count_pair same_pair is_processed list_beq trim is_space
    byte_len rune_len trim_left trim_right
program = tt

abbrev paid : Row
paid = record {
  id = 1;
  event_id = codes "e1";
  tenant_id = 4;
  event_type = codes "order.paid";
  version = 1;
  correlation_id = none;
  actor = codes "{}";
  source = codes "orders";
  payload = codes "{}";
  status = 0;
  retry_count = 0;
  next_retry_at = none;
  occurred_at = 100;
  sent_at = none;
}

abbrev input : PublishInput
input = record {
  event_id = codes " e1 ";
  tenant_id = 4;
  event_type = codes "order.paid";
  source = codes "orders";
  correlation_id = codes " ";
  actor = some (codes "{}");
  payload = some (codes "{}");
}

abbrev empty : Tables
empty = record { outbox = []; event_processed = [] }

built : build_outbox (codes "fresh") 100 input ≡ inr (record paid { id = 0 })
unfolding program
built = refl

republished :
    (publish false (codes "x") 200 input (publish false (codes "x") 100 input empty).1).0
    ≡ inl duplicate_event
unfolding program
republished = refl

retry_schedule_example :
    ((fail_all (1 ∷ 2 ∷ []) paid).retry_count ≡ 2)
    × ((fail_all (1 ∷ 2 ∷ []) paid).status ≡ 0)
    × (is_due 40000000001 (fail_all (1 ∷ 2 ∷ []) paid) ≡ false)
retry_schedule_example = retry_schedule (1 ∷ []) 2 40000000001 paid refl

abbrev processed : Tables
processed = record {
  outbox = [];
  event_processed =
      record {
        consumer_name = codes "mailer";
        event_id = codes "e1";
        tenant_id = 4;
        processed_at = 300;
      }
      ∷ [];
}

processed_exact_example :
    (mark_processed false false 400 (codes " mailer") (some paid) processed ≡ (none, processed))
    × (is_processed false (codes " mailer") paid.event_id processed ≡ inr false)
unfolding program
processed_exact_example =
    processed_exact false false 300 400 (codes " mailer") paid empty processed refl refl refl
