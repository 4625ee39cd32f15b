-- ===== src/Outbox/Tests.antt =====
-- A store of two events that is dispatched in reverse.
use synapse_go.Base.{
  ◌≡◌, refl, inl, inr, none, some, List, [], ◌∷◌, Bool-cases, pos, nat_eq, list_beq, lookup, insert,
  Text, text_eq, codes, Time,
}
use synapse_go.Outbox.{
  OutboxRecord, MemoryStore, new_memory_store, add_new, enqueue, is_waiting, waiting, pending, mark,
  mark_dispatched, after_mark, mark_all, dispatch,
}
use synapse_go.Outbox.Dispatch.{any_of, IsOrder, Keyed, dispatch_lem}

program : Unit {0}
unfolding enqueue add_new dispatch mark_all after_mark mark_dispatched mark pending waiting
    is_waiting lookup insert list_beq Keyed IsOrder any_of
program = tt

abbrev event : Text → OutboxRecord
event id = record {
  id = id;
  tenant_id = codes "t1";
  aggregate_id = codes "a";
  event_type = codes "order.paid";
  payload = [];
  created_at = 5;
  dispatched_at = none;
  retry_count = pos 0;
}

abbrev two : MemoryStore
two = record { records = (codes "a", event (codes "a")) ∷ (codes "b", event (codes "b")) ∷ [] }

enqueued :
    (enqueue 9
      (some (event (codes "b")))
      (enqueue 9 (some (event (codes "a"))) new_memory_store).1).1
    ≡ two
unfolding program
enqueued = refl

two-Keyed : Keyed two.records
unfolding Keyed
two-Keyed = (refl, (refl, tt))

abbrev last_first : List OutboxRecord → List OutboxRecord
last_first [] = []
last_first (r ∷ []) = r ∷ []
last_first (r ∷ x ∷ rs) = x ∷ r ∷ rs

last_first-IsOrder : IsOrder last_first
unfolding IsOrder any_of
last_first-IsOrder p [] = refl
last_first-IsOrder p (r ∷ []) = refl
last_first-IsOrder p (r ∷ x ∷ rs) = elim (Bool-cases (p r)) [
  | inl a ↦ elim (Bool-cases (p x)) [ inl b ↦ rw (a, b) refl | inr b ↦ rw (a, b) refl ]
  | inr a ↦ elim (Bool-cases (p x)) [ inl b ↦ rw (a, b) refl | inr b ↦ rw (a, b) refl ]
]

dispatch_lem_example :
    ((dispatch (λ id. 7) last_first two).0 ≡ none)
    × ((t : Time) × (lookup (codes "b") (dispatch (λ id. 7) last_first two).1.records
          ≡ some (record (event (codes "b")) { dispatched_at = some t })))
unfolding lookup list_beq
dispatch_lem_example =
    dispatch_lem (λ id. 7) last_first two (codes "b") (event (codes "b")) last_first-IsOrder
      two-Keyed refl
