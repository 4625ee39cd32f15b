-- ===== src/Runtimeguard/Redis/Tests.antt =====
-- Three calls of the limiter and one lock.
use synapse_go.Base.{
  ℕ, ◌≡◌, refl, inr, Bool, true, false, Option, none, some, List, [], ◌∷◌, map, arith, ℤ, pos, ◌-ℤ◌,
  nat_eq, ne_of_beq, list_beq, Text, text_eq, codes, is_space, trim_left, trim_right, trim,
  Duration,
}
use synapse_go.Runtimeguard.Windows.{
  is_over, lapse, bumped, until, count_of, left_until, pttl_of, limiter_script,
}
use synapse_go.Runtimeguard.Redis.{
  duration_millis, of_millis, denied, redis_limiter_decision, decide, RedisLimiter, limiter_key,
  redis_value_int, with_int, values_int, eval_int_slice, decision_of, allow_redis, RedisLock,
  RedisLockManager, lock_key, Outcome, locked, taken, granted, acquire_with, acquire, release,
  release_lock,
}
use synapse_go.Runtimeguard.Redis.Calls.{ms}
use synapse_go.Runtimeguard.Redis.Sample.{Cells, cells, empty}
use synapse_go.Runtimeguard.Redis.Same.{Call, run_redis}
use synapse_go.Runtimeguard.Redis.Wait.{wait_enough}
use synapse_go.Runtimeguard.Redis.Hold.{hold_owned}
use synapse_go.Lock.Sample.{Memory, memory, nobody}

abbrev no_text : Text → Option ℤ
no_text t = none

abbrev limiter : RedisLimiter
limiter = record { has_store = true; key_prefix = codes "app:" }

abbrev user : Text
user = codes " u1 "

abbrev three : List Call
three =
    record { key = user; limit = pos 1; at = 7 }
    ∷ record { key = user; limit = pos 1; at = 9 }
    ∷ record { key = user; limit = pos 1; at = 17 }
    ∷ []

program : Unit {0}
unfolding run_redis allow_redis limiter_script lapse is_over bumped until count_of pttl_of
    left_until decision_of decide redis_limiter_decision denied of_millis duration_millis
    limiter_key list_beq eval_int_slice values_int redis_value_int with_int trim trim_left
    trim_right is_space ◌-ℤ◌ acquire acquire_with granted lock_key
program = tt

decided :
    map {B = Bool × Duration}
      (λ r. (r.0.allowed, r.0.retry_after))
      (run_redis cells no_text limiter 10 three empty)
    ≡ (true, pos 0) ∷ (false, pos 8000000) ∷ (true, pos 0) ∷ []
unfolding program
decided = refl

-- A counter that has lost its time to live is given one by the call that it refuses.
abbrev stuck : Cells
stuck k = some (record { count = 4; deadline = none })

wait_enough_example :
    (allow_redis no_text cells false 31 user
      (pos 1)
      (pos (ms 10))
      limiter
      (allow_redis no_text cells false 20 user (pos 1) (pos (ms 10)) limiter stuck).1).0.0.allowed
    ≡ true
unfolding program
wait_enough_example =
    wait_enough cells no_text limiter user 0 10 20 31 stuck refl refl (omega arith) refl
      (omega arith)

abbrev manager : RedisLockManager
manager = record { has_store = true; key_prefix = codes "app:" }

abbrev job : Text
job = codes "job"

abbrev held : RedisLock
held = record { key = job; owner = codes "ann"; token = codes "a1" }

abbrev first_held : Outcome × Memory
first_held =
    acquire memory no_text (some held.token) false job (codes "ann") (pos 10) 5 manager nobody

abbrev bob : RedisLock
bob = record { key = job; owner = codes "bob"; token = codes "b2" }

hold_owned_example :
    let s = first_held.1 in
    let request : ℕ → Memory → Outcome × Memory =
      λ t u. acquire memory no_text (some bob.token) false job bob.owner (pos 3) t manager u in
    ((request 8 s).0 ≡ taken)
    × (release memory no_text false job bob.token 8 manager s ≡ (inr false, s))
    × ((release_lock memory no_text false held 8 manager s).0 ≡ inr true)
    × ((request 9 (release_lock memory no_text false held 8 manager s).1).0 ≡ locked bob)
unfolding program
hold_owned_example =
    hold_owned memory no_text manager held.token bob.token job (codes "ann") bob.owner 10 2 5 8 9
      held nobody first_held.1 refl refl refl refl refl
      (ne_of_beq {A = Text} bob.token held.token refl) refl (omega arith) (omega arith)
      (omega arith)
