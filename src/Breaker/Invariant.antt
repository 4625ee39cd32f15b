-- ===== src/Breaker/Invariant.antt =====
-- What holds of every circuit between two calls.
use synapse_go.Base.{
  ◌≡◌, inl, inr, some, List, [], ◌∷◌, arith, if◌then◌else◌, Bool-cases, Option-cases, pos, ◌≤ℤ◌,
  ◌<ℤ◌, nat_eq, list_beq, lookup, insert, lookup-insert, Text, text_eq, Time, after,
}
use synapse_go.Breaker.{
  State, closed, opened, half_open, Config, CircuitState, CircuitBreaker, or_default, new, fresh,
  or_fresh, get_or_create, put, available_in, is_available, after_success, record_success,
  after_failure, record_failure, Call, check, success, failure, step, run,
}

-- The settings that `New` makes of a caller's settings that are not negative.
pub record IsSane (cfg : Config) : Type 0 where
  pub threshold : pos 0 <ℤ cfg.failure_threshold
  pub probes : pos 0 <ℤ cfg.half_open_max_requests

-- A closed circuit has not reached the threshold, and a half-open one has not had its probes.
pub record IsSettled (cfg : Config) (s : CircuitState) : Type 0 where
  pub quiet : s.state ≡ closed → pos s.consecutive_failures <ℤ cfg.failure_threshold
  pub probing : s.state ≡ half_open → pos s.consecutive_success <ℤ cfg.half_open_max_requests

pub record IsValid (cb : CircuitBreaker) : Type 0 where
  pub sane : IsSane cb.config
  pub settled :
      (key : Text) (s : CircuitState) → lookup key cb.states ≡ some s → IsSettled cb.config s

fresh-IsSettled : (cfg : Config) → IsSane cfg → IsSettled cfg fresh
unfolding fresh
fresh-IsSettled cfg h = ground arith

after_success-IsSettled :
    (cfg : Config) (s : CircuitState)
    → IsSane cfg
    → IsSettled cfg s
    → IsSettled cfg (after_success cfg s)
unfolding after_success
after_success-IsSettled cfg s h v = ground arith

after_failure-IsSettled :
    (now : Time) (cfg : Config) (s : CircuitState)
    → IsSane cfg
    → IsSettled cfg s
    → IsSettled cfg (after_failure now cfg s)
unfolding after_failure
after_failure-IsSettled now cfg s h v = ground arith

get_or_create-IsSettled :
    (key : Text) (cb : CircuitBreaker) → IsValid cb → IsSettled cb.config (get_or_create key cb)
unfolding get_or_create or_fresh
get_or_create-IsSettled key cb v = elim (Option-cases (lookup key cb.states)) [
  | inl missing ↦ rw missing (fresh-IsSettled cb.config v.sane)
  | inr (s, found) ↦ rw found (v.settled key s found)
]

put-IsValid :
    (key : Text) (s : CircuitState) (cb : CircuitBreaker)
    → IsValid cb
    → IsSettled cb.config s
    → IsValid (put key s cb)
unfolding put
put-IsValid key s cb v h = record {
  sane = v.sane;
  settled = λ j t found. at j t (lookup-insert key j s cb.states) found;
}
  where
    at :
        (j : Text) (t : CircuitState)
        → lookup j (insert key s cb.states)
          ≡ (if list_beq key j then some s else lookup j cb.states)
        → lookup j (insert key s cb.states) ≡ some t
        → IsSettled cb.config t
    at j t law found = elim (Bool-cases (list_beq key j)) [
      | inl same ↦ ground arith
      | inr other ↦ v.settled j t (ground arith)
    ]

available_in-IsValid :
    (now : Time) (key : Text) (s : CircuitState) (cb : CircuitBreaker)
    → lookup key cb.states ≡ some s
    → IsValid cb
    → IsValid (available_in s.state now key s cb).0
unfolding available_in
available_in-IsValid now key s cb found v =
    by_state s.state (put-IsValid key probe cb v (ground (arith, v.sane)))
  where
    probe : CircuitState
    probe = record s { state = half_open; consecutive_success = 0 }

    by_state : (st : State) → IsValid (put key probe cb) → IsValid (available_in st now key s cb).0
    by_state closed w = v
    by_state opened w = elim (Bool-cases (after now s.open_until)) [
      | inl late ↦ rw late w
      | inr early ↦ rw early v
    ]
    by_state half_open w = v

is_available-IsValid :
    (now : Time) (key : Text) (cb : CircuitBreaker)
    → IsValid cb
    → IsValid (is_available now key cb).0
unfolding is_available
is_available-IsValid now key cb v = elim (Option-cases (lookup key cb.states)) [
  | inl missing ↦ rw missing v
  | inr (s, found) ↦ rw found (available_in-IsValid now key s cb found v)
]

-- Every call, at every time and key, keeps every circuit settled.
step-IsValid : (cb : CircuitBreaker) (c : Call) → IsValid cb → IsValid (step cb c)
unfolding step record_success record_failure
step-IsValid cb (check now key) v = is_available-IsValid now key cb v
step-IsValid cb (success key) v =
    put-IsValid key _ cb v
      (after_success-IsSettled cb.config _ v.sane (get_or_create-IsSettled key cb v))
step-IsValid cb (failure now key) v =
    put-IsValid key _ cb v
      (after_failure-IsSettled now cb.config _ v.sane (get_or_create-IsSettled key cb v))

run-IsValid : (cb : CircuitBreaker) (cs : List Call) → IsValid cb → IsValid (run cb cs)
unfolding run
run-IsValid cb [] v = v
run-IsValid cb (c ∷ cs) v = run-IsValid (step cb c) cs (step-IsValid cb c v)

new-IsValid :
    (cfg : Config)
    → pos 0 ≤ℤ cfg.failure_threshold
    → pos 0 ≤ℤ cfg.half_open_max_requests
    → IsValid (new cfg)
unfolding new or_default lookup
new-IsValid cfg a b = record { sane = ground arith; settled = λ key s found. absurd (ground arith) }

-- From a new breaker whose settings are not negative, and after any calls at any times: a closed
-- circuit has fewer failures than the threshold, and a half-open one fewer successes than the
-- number of probes that closes it.
pub run-new-IsValid :
    (cfg : Config) (cs : List Call)
    → pos 0 ≤ℤ cfg.failure_threshold
    → pos 0 ≤ℤ cfg.half_open_max_requests
    → IsValid (run (new cfg) cs)
run-new-IsValid cfg cs a b = run-IsValid (new cfg) cs (new-IsValid cfg a b)
