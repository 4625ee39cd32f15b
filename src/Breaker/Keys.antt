-- ===== src/Breaker/Keys.antt =====
-- Circuits of different keys do not touch one another.
use synapse_go.Base.{
  ◌≡◌, refl, ap, ◌∙◌, ◌≢◌, inl, inr, Option, none, some, List, [], ◌∷◌, arith, Bool-cases, All,
  nat_eq, lookup, lookup-insert_ne, Text, text_eq, Time, after,
}
use synapse_go.Breaker.{
  State, closed, opened, half_open, CircuitState, CircuitBreaker, put, available_in, available_at,
  is_available, record_success, record_failure, Call, check, success, failure, step, run, key_of,
}

put_ne :
    (j key : Text) (s : CircuitState) (cb : CircuitBreaker)
    → key ≢ j
    → lookup j (put key s cb).states ≡ lookup j cb.states
unfolding put
put_ne j key s cb n = lookup-insert_ne key j s cb.states n

available_in_ne :
    (j : Text) (st : State) (now : Time) (key : Text) (s : CircuitState) (cb : CircuitBreaker)
    → key ≢ j
    → lookup j (available_in st now key s cb).0.states ≡ lookup j cb.states
unfolding available_in
available_in_ne j closed now key s cb n = refl
available_in_ne j opened now key s cb n = elim (Bool-cases (after now s.open_until)) [
  | inl late ↦ rw late (put_ne j key _ cb n)
  | inr early ↦ rw early
]
available_in_ne j half_open now key s cb n = refl

available_at_ne :
    (j : Text) (o : Option CircuitState) (now : Time) (key : Text) (cb : CircuitBreaker)
    → key ≢ j
    → lookup j (available_at o now key cb).0.states ≡ lookup j cb.states
unfolding available_at
available_at_ne j none now key cb n = refl
available_at_ne j (some s) now key cb n = available_in_ne j s.state now key s cb n

step_ne :
    (j : Text) (cb : CircuitBreaker) (c : Call)
    → key_of c ≢ j
    → lookup j (step cb c).states ≡ lookup j cb.states
unfolding step key_of record_success record_failure is_available
step_ne j cb (check now key) n = available_at_ne j (lookup key cb.states) now key cb n
step_ne j cb (success key) n = put_ne j key _ cb n
step_ne j cb (failure now key) n = put_ne j key _ cb n

run_others :
    (j : Text) (cb : CircuitBreaker) (cs : List Call)
    → All (λ c. key_of c ≢ j) cs
    → lookup j (run cb cs).states ≡ lookup j cb.states
unfolding run
run_others j cb [] u = refl
run_others j cb (c ∷ cs) u = run_others j (step cb c) cs u.1 ∙ step_ne j cb c u.0

available_at_same :
    (o : Option CircuitState) (now : Time) (key : Text) (a b : CircuitBreaker)
    → (available_at o now key a).1 ≡ (available_at o now key b).1
unfolding available_at
available_at_same o now key a b = ground arith

is_available_same :
    (j : Text) (now : Time) (a b : CircuitBreaker)
    → lookup j a.states ≡ lookup j b.states
    → (is_available now j a).1 ≡ (is_available now j b).1
unfolding is_available
is_available_same j now a b e =
    ap (λ o. (available_at o now j a).1) e ∙ available_at_same (lookup j b.states) now j a b

-- Calls at other keys leave a key's circuit as it was, and so the answer to its next check.
run_ne :
    (j : Text) (now : Time) (cb : CircuitBreaker) (cs : List Call)
    → All (λ c. key_of c ≢ j) cs
    → (lookup j (run cb cs).states ≡ lookup j cb.states)
      × ((is_available now j (run cb cs)).1 ≡ (is_available now j cb).1)
run_ne j now cb cs h = let e = run_others j cb cs h in (e, is_available_same j now (run cb cs) cb e)
