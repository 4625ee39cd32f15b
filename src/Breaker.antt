-- ===== src/Breaker.antt =====
-- circuitbreaker/breaker.go: one circuit for each key, kept in a map. A method takes the breaker
-- and returns the new one; the time of the call is an argument.
pub mod Invariant
pub mod Trip
mod Keys
mod Tests
use synapse_go.Base.{
  ℕ, zero, suc, ◌+◌, ◌-◌, ◌*◌, ◌/◌, ◌%◌, ◌^◌, ◌≤◌, ◌<◌, min, ◌≡◌, refl, sym, ap, ap₂, ◌∙◌, ◌≢◌, ◌↔◌,
  ◌⊎◌, inl, inr, Bool, true, false, not, ◌&&◌, ◌||◌, Option, none, some, List, [], ◌∷◌, ◌++◌, map,
  arith, ltb, leb, if◌then◌else◌, ltb→lt, ltb_false→le, leb→le, Bool-cases, Option-cases, length,
  take, drop, length-append, length-take, length-drop, All, Any, here, there, ℤ, pos, negsuc,
  pos_part, neg_part, sub_ℕ, ◌+ℤ◌, ◌-ℤ◌, ◌≤ℤ◌, ◌<ℤ◌, ltb_ℤ, leb_ℤ, nonpos, +ℤ_parts, -ℤ_parts,
  eq_of_parts, int_laws, Eq, nat_eq, beq_refl, beq_false, list_beq, list_beq_iff, lookup, insert,
  delete, lookup-insert, lookup-insert_self, lookup-insert_ne, lookup-delete, Text, text_eq, codes,
  is_empty, rune_len, byte_len, is_space, trim_left, trim_right, trim, trim_space, has_prefix,
  first_ok, last_ok, last_ok-trim_right, trim_id, first_ok-trim, last_ok-trim, trim_idem, Time,
  Duration, is_zero, add_time, sub_time, after, seconds,
}

pub data State : Type 0 where
  closed opened half_open : State

pub record Config : Type 0 where
  pub failure_threshold : ℤ
  pub open_duration : Duration
  pub half_open_max_requests : ℤ

pub record CircuitState : Type 0 where
  pub state : State
  pub consecutive_failures : ℕ
  pub consecutive_success : ℕ
  pub open_until : Time

pub record CircuitBreaker : Type 0 where
  pub states : List (Text × CircuitState)
  pub config : Config

-- The default of a setting that is 0.
or_default : ℤ → ℕ → ℤ
or_default (pos zero) d = pos d
or_default (pos (suc n)) d = pos (suc n)
or_default (negsuc n) d = negsuc n

pub new : Config → CircuitBreaker
unfolding or_default
new cfg = record {
  states = [];
  config = record {
    failure_threshold = or_default cfg.failure_threshold 5;
    open_duration = or_default cfg.open_duration (seconds 30);
    half_open_max_requests = or_default cfg.half_open_max_requests 3;
  };
}

fresh : CircuitState
fresh = record { state = closed; consecutive_failures = 0; consecutive_success = 0; open_until = 0 }

-- The state that `getOrCreate` finds or makes.
or_fresh : Option CircuitState → CircuitState
unfolding fresh
or_fresh none = fresh
or_fresh (some s) = s

pub get_or_create : Text → CircuitBreaker → CircuitState
get_or_create key cb = or_fresh (lookup key cb.states)

-- The pointer in the map is written through.
put : Text → CircuitState → CircuitBreaker → CircuitBreaker
put key s cb = record cb { states = insert key s cb.states }

available_in : State → Time → Text → CircuitState → CircuitBreaker → CircuitBreaker × Bool
available_in closed now key s cb = (cb, true)
available_in opened now key s cb =
    if after now s.open_until
    then (put key (record s { state = half_open; consecutive_success = 0 }) cb, true)
    else (cb, false)
available_in half_open now key s cb = (cb, true)

available_at : Option CircuitState → Time → Text → CircuitBreaker → CircuitBreaker × Bool
unfolding available_in
available_at none now key cb = (cb, true)
available_at (some s) now key cb = available_in s.state now key s cb

pub is_available : Time → Text → CircuitBreaker → CircuitBreaker × Bool
unfolding available_at
is_available now key cb = available_at (lookup key cb.states) now key cb

is_half_open : State → Bool
is_half_open half_open = true
is_half_open _ = false

after_success : Config → CircuitState → CircuitState
unfolding is_half_open
after_success cfg s =
    let t = record s {
      consecutive_failures = 0;
      consecutive_success = s.consecutive_success + 1;
    } in
    if is_half_open t.state && leb_ℤ cfg.half_open_max_requests (pos t.consecutive_success)
    then record t { state = closed; consecutive_success = 0 }
    else t

pub record_success : Text → CircuitBreaker → CircuitBreaker
record_success key cb = put key (after_success cb.config (get_or_create key cb)) cb

-- The `switch` of `RecordFailure`, on the counted failure.
trip : State → Time → Config → CircuitState → CircuitState
trip closed now cfg t =
    if leb_ℤ cfg.failure_threshold (pos t.consecutive_failures)
    then record t { state = opened; open_until = add_time now cfg.open_duration }
    else t
trip half_open now cfg t = record t { state = opened; open_until = add_time now cfg.open_duration }
trip opened now cfg t = record t { open_until = add_time now cfg.open_duration }

after_failure : Time → Config → CircuitState → CircuitState
unfolding trip
after_failure now cfg s =
    let t = record s {
      consecutive_failures = s.consecutive_failures + 1;
      consecutive_success = 0;
    } in
    trip t.state now cfg t

pub record_failure : Time → Text → CircuitBreaker → CircuitBreaker
record_failure now key cb = put key (after_failure now cb.config (get_or_create key cb)) cb

-- What callers do to a breaker, and when.
pub data Call : Type 0 where
  check : Time → Text → Call
  success : Text → Call
  failure : Time → Text → Call

pub step : CircuitBreaker → Call → CircuitBreaker
step cb (check now key) = (is_available now key cb).0
step cb (success key) = record_success key cb
step cb (failure now key) = record_failure now key cb

pub run : CircuitBreaker → List Call → CircuitBreaker
run cb [] = cb
run cb (c ∷ cs) = run (step cb c) cs

pub key_of : Call → Text
key_of (check now key) = key
key_of (success key) = key
key_of (failure now key) = key
