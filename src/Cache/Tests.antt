-- ===== src/Cache/Tests.antt =====
-- A cache with room for two keys.
use synapse_go.Base.{
  ℕ, ◌≡◌, refl, none, some, List, [], ◌∷◌, pos, nat_eq, lookup, insert, delete, Text, text_eq,
  codes,
}
use synapse_go.Cache.Lru.{
  expiry, new, find_id, remove_id, front, move_to_front, back, write_id, is_expired, purge,
  remove_element, remove_found, read, get_at, get, push, evict, set_at, set, delete_at, delete_key,
}
use synapse_go.Cache.Recency.{recall_at, recall, remember, entries}
use synapse_go.Cache.Tied.{IsTied}
use synapse_go.Cache.Refinement.{
  Call, gets, sets, step, promise, run, promises, lru_refines, run-new-IsTied,
}

abbrev calls : List (Call ℕ Text)
calls =
    sets 10 1 (codes "one")
    ∷ sets 20 2 (codes "two")
    ∷ gets 30 1
    ∷ sets 40 3 (codes "three")
    ∷ gets 50 2
    ∷ gets 60 1
    ∷ gets 146 1
    ∷ []

program : Unit {0}
unfolding promises promise recall recall_at remember expiry lookup delete run step get get_at read
    set set_at push evict remove_found remove_element delete_key delete_at purge new find_id
    remove_id move_to_front front back write_id is_expired entries
program = tt

-- The second key makes room for the third, and the first expires after a hundred.
lru_refines_example :
    let (answers, c) = run calls (new (pos 2) (pos 100)) in
    (answers ≡ none ∷ none ∷ some (codes "one") ∷ none ∷ none ∷ some (codes "one") ∷ none ∷ [])
    × (entries c.ll ≡ (3, (codes "three", 140)) ∷ [])
unfolding promises promise recall recall_at remember expiry lookup delete
lru_refines_example = lru_refines 1 (pos 100) calls

ran : (run calls (new (pos 2) (pos 100))).1.items ≡ (3, 2) ∷ []
unfolding program insert
ran = refl

run-new-IsTied_example : IsTied 1 (run calls (new (pos 2) (pos 100))).1
run-new-IsTied_example = run-new-IsTied 1 (pos 100) calls
