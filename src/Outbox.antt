-- ===== src/Outbox.antt =====
-- outbox/outbox.go: the process-local store of events. A map is read in an order that is not
-- specified, so the order is an argument of `pending`.
use synapse_go.Base.{
  ℕ, zero, suc, ◌+◌, ◌-◌, ◌*◌, ◌/◌, ◌%◌, ◌^◌, ◌≤◌, ◌<◌, min, ◌≡◌, refl, sym, ap, ap₂, subst, ◌∙◌,
  ◌≢◌, ◌↔◌, ◌⊎◌, inl, inr, Bool, true, false, not, ◌&&◌, ◌||◌, Option, none, some, List, [], ◌∷◌,
  ◌++◌, map, arith, ◌==◌, ==_iff, ltb, leb, if◌then◌else◌, ltb→lt, ltb_false→le, leb→le, Bool-cases,
  Option-cases, ap-if, Sum-cases, length, take, drop, length-append, length-take, length-drop, All,
  Any, here, there, ℤ, pos, negsuc, pos_part, neg_part, sub_ℕ, ◌+ℤ◌, ◌-ℤ◌, ◌≤ℤ◌, ◌<ℤ◌, ltb_ℤ, leb_ℤ,
  nonpos, +ℤ_parts, -ℤ_parts, eq_of_parts, int_laws, ltb_ℤ_false, eq_ℤ, eq_ℤ_refl, eq_of_eq_ℤ, Eq,
  nat_eq, beq_refl, beq_false, ne_of_beq, list_beq, list_beq_iff, lookup, insert, delete,
  lookup-insert, lookup-insert_self, lookup-insert_ne, lookup-delete, Text, text_eq, codes,
  is_empty, rune_len, byte_len, is_space, trim_left, trim_right, trim, trim_space, has_prefix,
  first_ok, last_ok, last_ok-trim_right, trim_id, first_ok-trim, last_ok-trim, trim_idem,
  trim_prefix, all_runes, Cases, upper_rune, lower_rune, to_upper, to_lower, ascii_cases, Time,
  Duration, is_zero, add_time, sub_time, after, seconds, digits_before, format_nat, format_int,
}
mod Dispatch
mod Tests

pub data Err : Type 0 where
  invalid_record duplicate_record record_not_found : Err

pub record OutboxRecord : Type 0 where
  pub id : Text
  pub tenant_id : Text
  pub aggregate_id : Text
  pub event_type : Text
  pub payload : List ℕ
  pub created_at : Time
  pub dispatched_at : Option Time
  pub retry_count : ℤ

pub record MemoryStore : Type 0 where
  pub records : List (Text × OutboxRecord)

abbrev pub new_memory_store : MemoryStore
new_memory_store = record { records = [] }

unfoldable pub add_new :
    Option OutboxRecord → Time → OutboxRecord → MemoryStore → Option Err × MemoryStore
add_new (some old) now r s = (some duplicate_record, s)
add_new none now r s =
    let cp = if is_zero r.created_at then record r { created_at = now } else r in
    (none, record s { records = insert cp.id cp s.records })

-- `none` is a nil record.
unfoldable pub enqueue : Time → Option OutboxRecord → MemoryStore → Option Err × MemoryStore
unfolding add_new
enqueue now none s = (some invalid_record, s)
enqueue now (some r) s =
    if is_empty r.id || is_empty r.tenant_id || is_empty r.event_type
    then (some invalid_record, s)
    else add_new (lookup r.id s.records) now r s

unfoldable pub is_waiting : OutboxRecord → Bool
is_waiting r = elim (r.dispatched_at) [ none ↦ true | some t ↦ false ]

-- The records that wait, as they stand in the map.
unfoldable pub waiting : List (Text × OutboxRecord) → List OutboxRecord
unfolding is_waiting
waiting [] = []
waiting ((k, r) ∷ m) = let rest = waiting m in if is_waiting r then r ∷ rest else rest

unfoldable pub pending : (List OutboxRecord → List OutboxRecord) → MemoryStore → List OutboxRecord
unfolding waiting
pending order s = order (waiting s.records)

unfoldable pub mark : Option OutboxRecord → Time → Text → MemoryStore → Option Err × MemoryStore
mark none now id s = (some record_not_found, s)
mark (some r) now id s =
    (none, record s { records = insert id (record r { dispatched_at = some now }) s.records })

unfoldable pub mark_dispatched : Time → Text → MemoryStore → Option Err × MemoryStore
unfolding mark
mark_dispatched now id s = mark (lookup id s.records) now id s

unfoldable pub after_mark :
    (MemoryStore → Option Err × MemoryStore) → Option Err × MemoryStore → Option Err × MemoryStore
after_mark rest (some e, s) = (some e, s)
after_mark rest (none, s) = rest s

-- The loop of `Dispatch`; `clock` is what `time.Now` says when a record is marked.
unfoldable pub mark_all : (Text → Time) → List OutboxRecord → MemoryStore → Option Err × MemoryStore
unfolding mark_dispatched after_mark
mark_all clock [] s = (none, s)
mark_all clock (r ∷ rs) s = after_mark (mark_all clock rs) (mark_dispatched (clock r.id) r.id s)

unfoldable pub dispatch :
    (Text → Time) → (List OutboxRecord → List OutboxRecord) → MemoryStore → Option Err × MemoryStore
unfolding mark_all pending
dispatch clock order s = mark_all clock (pending order s) s
