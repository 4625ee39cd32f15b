-- ===== src/Breaker/Tests.antt =====
-- A breaker that opens at the second failure, stays open for ten nanoseconds and closes after two
-- probes.
use synapse_go.Base.{
  ◌≡◌, refl, true, false, [], ◌∷◌, arith, if◌then◌else◌, pos, leb_ℤ, nat_eq, list_beq, lookup,
  insert, Text, text_eq, codes, add_time, after,
}
use synapse_go.Breaker.{
  opened, half_open, Config, CircuitState, CircuitBreaker, new, or_fresh, get_or_create, put,
  is_available, after_failure, record_failure, check, success, failure, step, run,
}
use synapse_go.Breaker.Invariant.{IsValid, run-new-IsValid}
use synapse_go.Breaker.Trip.{trip_exactly}

abbrev cfg : Config
cfg = record { failure_threshold = pos 2; open_duration = pos 10; half_open_max_requests = pos 2 }

abbrev gpt : Text
gpt = codes "openai:gpt"

abbrev other : Text
other = codes "openai:other"

abbrev tripped : CircuitBreaker
tripped = run (new cfg) (failure 5 gpt ∷ failure 6 gpt ∷ [])

-- Defaults stand in for settings that are 0.
new_defaults :
    (new (record {
      failure_threshold = pos 0;
      open_duration = pos 0;
      half_open_max_requests = pos 0;
    })).config
    ≡ record {
      failure_threshold = pos 5;
      open_duration = pos 30000000000;
      half_open_max_requests = pos 3;
    }
unfolding new
new_defaults = refl

tripped_blocks :
    ((is_available 16 gpt tripped).1 ≡ false) × ((is_available 17 gpt tripped).1 ≡ true)
unfolding is_available run step new record_failure after_failure put get_or_create lookup insert
    list_beq or_fresh
tripped_blocks = (refl, refl)

run-new-IsValid_example : IsValid (run (new cfg) (failure 5 gpt ∷ check 9 gpt ∷ success gpt ∷ []))
run-new-IsValid_example =
    run-new-IsValid cfg (failure 5 gpt ∷ check 9 gpt ∷ success gpt ∷ []) (omega arith) (omega arith)

trip_exactly_example :
    (is_available 16 gpt (record_failure 6 gpt (run (new cfg) (failure 5 gpt ∷ [])))).1 ≡ (
      if leb_ℤ (new cfg).config.failure_threshold (pos 2)
      then after 16 (add_time 6 (new cfg).config.open_duration)
      else true)
trip_exactly_example = trip_exactly cfg gpt (5 ∷ []) 6 16

abbrev open_state : CircuitState
open_state = record {
  state = opened;
  consecutive_failures = 2;
  consecutive_success = 0;
  open_until = 16;
}

abbrev open_breaker : CircuitBreaker
open_breaker = record { states = (gpt, open_state) ∷ []; config = cfg }

abbrev probing_breaker : CircuitBreaker
probing_breaker = record open_breaker {
  states = (gpt, record open_state { state = half_open }) ∷ [];
}
