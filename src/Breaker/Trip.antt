-- ===== src/Breaker/Trip.antt =====
-- When a circuit opens, and when it closes again.
use synapse_go.Base.{
  ℕ, zero, suc, ◌+◌, ◌≡◌, refl, ap, ap₂, ◌∙◌, subst, ◌≢◌, ◌⊎◌, inl, inr, Bool, true, some, List, [],
  ◌∷◌, map, arith, if◌then◌else◌, Bool-cases, length, pos, ◌≤ℤ◌, ◌<ℤ◌, ltb_ℤ, leb_ℤ, nat_eq, lookup,
  lookup-insert_self, Text, text_eq, Time, add_time, after,
}
use synapse_go.Breaker.{
  closed, opened, half_open, Config, CircuitState, CircuitBreaker, new, fresh, or_fresh,
  get_or_create, put, available_in, available_at, is_available, after_success, record_success,
  after_failure, record_failure, Call, check, success, failure, step, run,
}

-- The circuit that a key has after a failure or a success at it.
get-record_failure :
    (t : Time) (key : Text) (cb : CircuitBreaker)
    → get_or_create key (record_failure t key cb) ≡ after_failure t cb.config (get_or_create key cb)
unfolding record_failure put get_or_create or_fresh
get-record_failure t key cb = rw lookup-insert_self

get-record_success :
    (key : Text) (cb : CircuitBreaker)
    → get_or_create key (record_success key cb) ≡ after_success cb.config (get_or_create key cb)
unfolding record_success put get_or_create or_fresh
get-record_success key cb = rw lookup-insert_self

-- `n` failures in a row at one key, at the times listed.
abbrev failures : Text → List Time → List Call
failures key = map (λ t. failure t key)

-- The same on one circuit.
fail_all : Config → CircuitState → List Time → CircuitState
fail_all cfg s [] = s
fail_all cfg s (t ∷ ts) = fail_all cfg (after_failure t cfg s) ts

get-failures :
    (key : Text) (ts : List Time) (cb : CircuitBreaker)
    → get_or_create key (run cb (failures key ts)) ≡ fail_all cb.config (get_or_create key cb) ts
unfolding run step fail_all
get-failures key [] cb = refl
get-failures key (t ∷ ts) cb =
    get-failures key ts (record_failure t key cb)
    ∙ ap₂ (λ cfg s. fail_all cfg s ts) (config-record_failure t) (get-record_failure t key cb)
  where
    config-record_failure : (u : Time) → (record_failure u key cb).config ≡ cb.config
    config-record_failure u = unfold record_failure put in refl

config-failures :
    (key : Text) (ts : List Time) (cb : CircuitBreaker)
    → (run cb (failures key ts)).config ≡ cb.config
unfolding run step record_failure put
config-failures key [] cb = refl
config-failures key (t ∷ ts) cb = config-failures key ts (record_failure t key cb)

counting :
    (cfg : Config) (s : CircuitState) (ts : List Time)
    → s.state ≡ closed
    → pos (s.consecutive_failures + length ts) <ℤ cfg.failure_threshold
    → (fail_all cfg s ts).state ≡ closed
unfolding fail_all after_failure
counting cfg s [] c h = c
counting cfg s (t ∷ ts) c h = counting cfg (after_failure t cfg s) ts (ground arith) (ground arith)

-- An open circuit stays open under failures.
still_open :
    (cfg : Config) (s : CircuitState) (ts : List Time)
    → s.state ≡ opened
    → (fail_all cfg s ts).state ≡ opened
unfolding fail_all after_failure
still_open cfg s [] o = o
still_open cfg s (t ∷ ts) o = still_open cfg (after_failure t cfg s) ts (ground arith)

counts_one :
    (t : Time) (cfg : Config) (s : CircuitState)
    → (after_failure t cfg s).consecutive_failures ≡ s.consecutive_failures + 1
unfolding after_failure
counts_one t cfg s = ground arith

counted :
    (cfg : Config) (s : CircuitState) (ts : List Time)
    → (fail_all cfg s ts).consecutive_failures ≡ s.consecutive_failures + length ts
unfolding fail_all
counted cfg s [] = omega arith
counted cfg s (t ∷ ts) = omega (arith, counts_one t cfg s, counted cfg (after_failure t cfg s) ts)

-- Whether a circuit lets a request through.
allows : Time → CircuitState → Bool
allows now s = elim (s.state) [ closed ↦ true | opened ↦ after now s.open_until | half_open ↦ true ]

allows-is_available :
    (now : Time) (key : Text) (cb : CircuitBreaker)
    → (is_available now key cb).1 ≡ allows now (get_or_create key cb)
unfolding is_available allows get_or_create or_fresh fresh
allows-is_available now key cb = ground arith

failed :
    (now t : Time) (cfg : Config) (s : CircuitState)
    → s.state ≢ half_open
    → (s.state ≡ closed) ⊎ (cfg.failure_threshold ≤ℤ pos (s.consecutive_failures + 1))
    → allows now (after_failure t cfg s) ≡ (
        if leb_ℤ cfg.failure_threshold (pos (s.consecutive_failures + 1))
        then after now (add_time t cfg.open_duration)
        else true)
unfolding allows after_failure
failed now t cfg s n h = ground arith

fail_all-state :
    (cfg : Config) (s : CircuitState) (ts : List Time)
    → s.state ≢ half_open
    → (fail_all cfg s ts).state ≢ half_open
unfolding fail_all after_failure
fail_all-state cfg s [] n = n
fail_all-state cfg s (t ∷ ts) n = fail_all-state cfg (after_failure t cfg s) ts (ground arith)

reached :
    (cfg : Config) (s : CircuitState) (ts : List Time)
    → s.state ≡ closed
    → ((fail_all cfg s ts).state ≡ closed)
      ⊎ (cfg.failure_threshold ≤ℤ pos ((fail_all cfg s ts).consecutive_failures + 1))
reached cfg s ts c =
    elim (Bool-cases (ltb_ℤ (pos (s.consecutive_failures + length ts)) cfg.failure_threshold)) [
      | inl below ↦ inl (counting cfg s ts c (ground arith))
      | inr above ↦ inr (rw (counted cfg s ts) (ground arith))
    ]

fresh_trip :
    (now t : Time) (cfg : Config) (ts : List Time)
    → allows now (after_failure t cfg (fail_all cfg fresh ts)) ≡ (
        if leb_ℤ cfg.failure_threshold (pos (length ts + 1))
        then after now (add_time t cfg.open_duration)
        else true)
unfolding fresh
fresh_trip now t cfg ts =
    let s : CircuitState = fail_all cfg fresh ts in
    let e : s.consecutive_failures ≡ length ts = omega (arith, counted cfg fresh ts) in
    subst
      (λ k. allows now (after_failure t cfg s) ≡ (
        if leb_ℤ cfg.failure_threshold (pos (k + 1))
        then after now (add_time t cfg.open_duration)
        else true))
      e (failed now t cfg s (fail_all-state cfg fresh ts (λ p. cc)) (reached cfg fresh ts refl))

trip_from_fresh :
    (cb : CircuitBreaker) (key : Text) (ts : List Time) (t now : Time)
    → get_or_create key cb ≡ fresh
    → (is_available now key (record_failure t key (run cb (failures key ts)))).1 ≡ (
        if leb_ℤ cb.config.failure_threshold (pos (length ts + 1))
        then after now (add_time t cb.config.open_duration)
        else true)
trip_from_fresh cb key ts t now e =
    allows-is_available now key _
    ∙ ap (allows now) (get-record_failure t key (run cb (failures key ts)))
    ∙ ap₂ (λ cfg s. allows now (after_failure t cfg s)) (config-failures key ts cb)
        (get-failures key ts cb ∙ ap (λ s. fail_all cb.config s ts) e)
    ∙ fresh_trip now t cb.config ts

-- After the failures of a key at the times `ts` and a last one at `t`, on a new breaker: below the
-- threshold a request is let through at any time; from the threshold on, it is let through exactly
-- after the open duration has passed since the last failure.
pub trip_exactly :
    (cfg : Config) (key : Text) (ts : List Time) (t now : Time)
    → (is_available now key (record_failure t key (run (new cfg) (failures key ts)))).1 ≡ (
        if leb_ℤ (new cfg).config.failure_threshold (pos (length ts + 1))
        then after now (add_time t (new cfg).config.open_duration)
        else true)
trip_exactly cfg key ts t now =
    trip_from_fresh (new cfg) key ts t now (unfold new lookup get_or_create or_fresh in refl)

-- `n` successes in a row at one key.
abbrev pub successes : Text → ℕ → List Call
successes key zero = []
successes key (suc n) = success key ∷ successes key n

succeed_all : Config → CircuitState → ℕ → CircuitState
succeed_all cfg s zero = s
succeed_all cfg s (suc n) = succeed_all cfg (after_success cfg s) n

get-successes :
    (key : Text) (n : ℕ) (cb : CircuitBreaker)
    → get_or_create key (run cb (successes key n)) ≡ succeed_all cb.config (get_or_create key cb) n
unfolding run step succeed_all
get-successes key zero cb = refl
get-successes key (suc n) cb =
    get-successes key n (record_success key cb)
    ∙ ap₂ (λ cfg s. succeed_all cfg s n) config-record_success (get-record_success key cb)
  where
    config-record_success : (record_success key cb).config ≡ cb.config
    config-record_success = unfold record_success put in refl

config-successes :
    (key : Text) (n : ℕ) (cb : CircuitBreaker) → (run cb (successes key n)).config ≡ cb.config
unfolding run step record_success put
config-successes key zero cb = refl
config-successes key (suc n) cb = config-successes key n (record_success key cb)

probed_step :
    (cfg : Config) (s : CircuitState)
    → s.state ≡ half_open
    → pos (s.consecutive_success + 1) <ℤ cfg.half_open_max_requests
    → ((after_success cfg s).state ≡ half_open)
      × ((after_success cfg s).consecutive_success ≡ s.consecutive_success + 1)
unfolding after_success
probed_step cfg s h l = ground arith

probed :
    (cfg : Config) (s : CircuitState) (n : ℕ)
    → s.state ≡ half_open
    → pos s.consecutive_success <ℤ cfg.half_open_max_requests
    → pos (s.consecutive_success + n) ≤ℤ cfg.half_open_max_requests
    → (succeed_all cfg s n).state ≡ (
        if leb_ℤ cfg.half_open_max_requests (pos (s.consecutive_success + n))
        then closed
        else half_open)
unfolding succeed_all after_success
probed cfg s zero h l m = ground arith
probed cfg s (suc zero) h l m = ground arith
probed cfg s (suc (suc n)) h l m =
    let (h', c) = probed_step cfg s h (omega arith) in
    let e : (after_success cfg s).consecutive_success + suc n
        ≡ s.consecutive_success + suc (suc n) =
      omega arith in
    subst
      (λ k.
        (succeed_all cfg (after_success cfg s) (suc n)).state
        ≡ (if leb_ℤ cfg.half_open_max_requests (pos k) then closed else half_open))
      e (probed cfg (after_success cfg s) (suc n) h' (omega arith) (omega arith))

-- What a check does to an open circuit whose time is over.
get-check :
    (now : Time) (key : Text) (cb : CircuitBreaker) (s : CircuitState)
    → lookup key cb.states ≡ some s
    → s.state ≡ opened
    → after now s.open_until ≡ true
    → get_or_create key (is_available now key cb).0
      ≡ record s { state = half_open; consecutive_success = 0 }
unfolding is_available available_at available_in put get_or_create or_fresh
get-check now key cb s found o late = rw (found, o, late, lookup-insert_self)

config-check :
    (now : Time) (key : Text) (cb : CircuitBreaker) → (is_available now key cb).0.config ≡ cb.config
unfolding is_available put
config-check now key cb = ground arith

-- An open circuit whose open duration is over, probed once and then successful `n` times, with `n`
-- at most the configured number of probes: it is closed exactly when `n` has reached that number,
-- and half-open before.
recover_exactly :
    (now : Time) (key : Text) (cb : CircuitBreaker) (s : CircuitState) (n : ℕ)
    → lookup key cb.states ≡ some s
    → s.state ≡ opened
    → after now s.open_until ≡ true
    → pos 0 <ℤ cb.config.half_open_max_requests
    → pos n ≤ℤ cb.config.half_open_max_requests
    → (get_or_create key (run cb (check now key ∷ successes key n))).state
      ≡ (if leb_ℤ cb.config.half_open_max_requests (pos n) then closed else half_open)
unfolding run step
recover_exactly now key cb s n found o late p m =
    let probe : CircuitState = record s { state = half_open; consecutive_success = 0 } in
    let e : 0 + n ≡ n = omega arith in
    ap (λ (t : CircuitState). t.state)
      (get-successes key n (is_available now key cb).0
        ∙ ap₂ (λ cfg t. succeed_all cfg t n) (config-check now key cb)
            (get-check now key cb s found o late))
    ∙ subst
        (λ k.
          (succeed_all cb.config probe n).state
          ≡ (if leb_ℤ cb.config.half_open_max_requests (pos k) then closed else half_open))
        e (probed cb.config probe n refl p (omega arith))

-- A half-open circuit lets every request through, however many are asked for and whenever: nothing
-- bounds the number of probes in flight.
half_open_unlimited :
    (key : Text) (cb : CircuitBreaker) (s : CircuitState) (now : Time) (earlier : List Time)
    → lookup key cb.states ≡ some s
    → s.state ≡ half_open
    → (is_available now key (run cb (map (λ t. check t key) earlier))).1 ≡ true
unfolding run step is_available
half_open_unlimited key cb s now [] found h = ground arith
half_open_unlimited key cb s now (t ∷ ts) found h =
    half_open_unlimited key (is_available t key cb).0 s now ts (ground arith) h
