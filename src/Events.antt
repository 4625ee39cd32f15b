-- ===== src/Events.antt =====
-- reliableevents: the outbox table, its retries, and the record of what consumers have processed.
use synapse_go.Base.{
  ℕ, zero, suc, ◌+◌, ◌-◌, ◌*◌, ◌/◌, ◌%◌, ◌^◌, ◌≤◌, ◌<◌, min, ◌≡◌, refl, sym, ap, ap₂, subst, ◌∙◌,
  ◌≢◌, ◌↔◌, ◌⊎◌, inl, inr, Bool, true, false, not, ◌&&◌, ◌||◌, Option, none, some, List, [], ◌∷◌,
  ◌++◌, map, arith, ◌==◌, ==_iff, ltb, leb, if◌then◌else◌, ltb→lt, ltb_false→le, leb→le, Bool-cases,
  Option-cases, ap-if, Sum-cases, length, take, drop, length-append, length-take, length-drop, All,
  Any, here, there, ℤ, pos, negsuc, pos_part, neg_part, sub_ℕ, ◌+ℤ◌, ◌-ℤ◌, ◌≤ℤ◌, ◌<ℤ◌, ltb_ℤ, leb_ℤ,
  nonpos, +ℤ_parts, -ℤ_parts, eq_of_parts, int_laws, ltb_ℤ_false, eq_ℤ, eq_ℤ_refl, eq_of_eq_ℤ, Eq,
  nat_eq, beq_refl, beq_false, ne_of_beq, list_beq, list_beq_iff, lookup, insert, delete,
  lookup-insert, lookup-insert_self, lookup-insert_ne, lookup-delete, Text, text_eq, codes,
  is_empty, rune_len, byte_len, is_space, trim_left, trim_right, trim, trim_space, has_prefix,
  first_ok, last_ok, last_ok-trim_right, trim_id, first_ok-trim, last_ok-trim, trim_idem,
  trim_prefix, all_runes, Cases, upper_rune, lower_rune, to_upper, to_lower, ascii_cases, Time,
  Duration, is_zero, add_time, sub_time, after, seconds, digits_before, format_nat, format_int,
}
mod Service
mod Retries
mod Processed
mod Tests

-- model.go: a row of `outbox`, status 0 pending, 1 sent, 2 failed.
pub record Row : Type 0 where
  pub id : ℕ
  pub event_id : Text
  pub tenant_id : ℕ
  pub event_type : Text
  pub version : ℕ
  pub correlation_id : Option Text
  pub actor : Text
  pub source : Text
  pub payload : Text
  pub status : ℕ
  pub retry_count : ℕ
  pub next_retry_at : Option Time
  pub occurred_at : Time
  pub sent_at : Option Time

-- A row of `event_processed`.
pub record EventProcessed : Type 0 where
  pub consumer_name : Text
  pub event_id : Text
  pub tenant_id : ℕ
  pub processed_at : Time

pub record Tables : Type 0 where
  pub outbox : List Row
  pub event_processed : List EventProcessed

pub data Err : Type 0 where
  invalid_input duplicate_event database : Err

-- The WHERE clause of `FetchPending`.
unfoldable pub is_due : Time → Row → Bool
is_due now r = r.status == 0 && elim (r.next_retry_at) [ none ↦ true | some t ↦ leb t now ]

-- The UPDATE of `MarkFailed` on a row: a single-table UPDATE assigns from left to right, so that
-- the status reads the old `retry_count` and the delay the new one.
unfoldable pub failed_row : Time → Row → Row
failed_row now r = record r {
  status = if leb 5 r.retry_count then 2 else 0;
  retry_count = r.retry_count + 1;
  next_retry_at = some (now + seconds (2 ^ min (r.retry_count + 1) 5 * 10));
}

unfoldable pub sent_row : Time → Row → Row
sent_row now r = record r { status = 1; sent_at = some now }

-- An UPDATE of the row with this id.
unfoldable pub update_row : ℕ → (Row → Row) → List Row → List Row
update_row id f [] = []
update_row id f (r ∷ rs) = (if r.id == id then f r else r) ∷ update_row id f rs

-- `fault` is an error of the database, which then has changed nothing.
unfoldable pub mark_failed : Bool → Time → ℕ → Tables → Option Err × Tables
unfolding update_row failed_row
mark_failed fault now id t =
    if fault
    then (some database, t)
    else (none, record t { outbox = update_row id (failed_row now) t.outbox })

unfoldable pub mark_sent : Bool → Time → ℕ → Tables → Option Err × Tables
unfolding update_row sent_row
mark_sent fault now id t =
    if fault
    then (some database, t)
    else (none, record t { outbox = update_row id (sent_row now) t.outbox })

unfoldable pub is_event : Text → Row → Bool
is_event event r = list_beq r.event_id event

unfoldable pub has_event : Text → List Row → Bool
unfolding is_event
has_event event [] = false
has_event event (r ∷ rs) = let rest = has_event event rs in is_event event r || rest

-- `event_id` is unique.
unfoldable pub insert_outbox : Bool → Row → Tables → Option Err × Tables
unfolding has_event
insert_outbox fault r t =
    if fault
    then (some database, t)
    else if has_event r.event_id t.outbox
    then (some duplicate_event, t)
    else (none, record t { outbox = r ∷ t.outbox })

unfoldable pub same_pair : Text → Text → EventProcessed → Bool
same_pair consumer event p = list_beq p.consumer_name consumer && list_beq p.event_id event

-- The COUNT of the rows of a consumer and an event.
unfoldable pub count_pair : Text → Text → List EventProcessed → ℕ
unfolding same_pair
count_pair consumer event [] = 0
count_pair consumer event (p ∷ ps) =
    let rest = count_pair consumer event ps in if same_pair consumer event p then suc rest else rest

unfoldable pub is_processed_row : Bool → Text → Text → Tables → Err ⊎ Bool
unfolding count_pair
is_processed_row fault consumer event t =
    if fault then inl database else inr (ltb 0 (count_pair consumer event t.event_processed))

-- The pair is the primary key, and a duplicate is no error.
unfoldable pub mark_processed_row : Bool → EventProcessed → Tables → Option Err × Tables
unfolding count_pair
mark_processed_row fault p t =
    if fault
    then (some database, t)
    else if ltb 0 (count_pair p.consumer_name p.event_id t.event_processed)
    then (none, t)
    else (none, record t { event_processed = p ∷ t.event_processed })
