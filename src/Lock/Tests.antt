-- ===== src/Lock/Tests.antt =====
-- Two clients of one lock.
use synapse_go.Base.{
  ◌+◌, ◌≡◌, refl, ◌≢◌, false, none, some, List, [], ◌∷◌, arith, pos, nat_eq, ne_of_beq, list_beq,
  Text, text_eq, codes,
}
use synapse_go.Lock.Keys.{live, holds, unlock_script, renew_script}
use synapse_go.Lock.Distributed.{
  locked, already_released, Config, Handle, handle, refused, granted, acquire_with, acquire,
  deleted, release, renewed, renew,
}
use synapse_go.Lock.Held.{Act, acquires, releases, time_of, Foreign, Others, last_time, act, acts}
use synapse_go.Lock.Simple.{passed, duplicate, tried, try_lock, as_duplicate, check, middleware}
use synapse_go.Lock.Ownership.{mutual_exclusion, release_hands_over}
use synapse_go.Lock.Sample.{Memory, write, put_nx, pexpire_in, memory, nobody}
use synapse_go.Lock.Duplicates.{only_while_running}

program : Unit {0}
unfolding acquire acquire_with release unlock_script renew renew_script holds granted deleted
    renewed list_beq act acts last_time Others Foreign time_of pexpire_in
program = tt

abbrev cfg : Config
cfg = record { key_prefix = codes "synapse:lock:"; token_bytes = 16 }

abbrev ann : Handle
ann = record {
  full_key = codes "synapse:lock:job";
  key = codes "job";
  token = codes "a1";
  released = false;
}

abbrev bob : Handle
bob = record ann { token = codes "b2" }

abbrev locked_store : Memory
locked_store = write ann.full_key 5 (live ann.token 5 10) nobody

abbrev busy : List Act
busy = releases false bob 7 ∷ acquires cfg (some bob.token) false (codes "job") (pos 50) 8 ∷ []

bob_not_ann : bob.token ≢ ann.token
unfolding list_beq
bob_not_ann = ne_of_beq {A = Text} bob.token ann.token refl

busy-Others : Others ann.token 5 (5 + 10) busy
unfolding program
busy-Others = (bob_not_ann, omega arith, omega arith, (tt, omega arith, omega arith, tt))

mutual_exclusion_example :
    (acquire memory cfg
      (some bob.token)
      false
      (codes "job")
      (pos 3)
      14
      (acts memory busy locked_store)).0
    ≡ refused locked
unfolding program
mutual_exclusion_example =
    mutual_exclusion memory cfg ann.token bob.token (codes "job") 10 2 5 14 ann busy nobody
      locked_store refl refl busy-Others (omega arith) (omega arith)

release_hands_over_example :
    let (e, h', u) = release memory false ann 9 (acts memory busy locked_store) in
    (e ≡ none)
    × ((acquire memory cfg (some bob.token) false (codes "job") (pos 3) 9 u).0 ≡ handle bob)
    × ((release memory false h' 9 u).0 ≡ some already_released)
unfolding program
release_hands_over_example =
    release_hands_over memory cfg ann.token bob.token (codes "job") 10 2 5 9 9 ann busy nobody
      locked_store refl refl busy-Others (omega arith) (omega arith) (omega arith)

-- Two requests with one idempotency key: the second comes while the first runs, and again after it.
abbrev handler : Memory → Memory
handler s = s

abbrev first_started : Memory
first_started = (put_nx (codes "idem:k1") (codes "t1") 1000 10 nobody).1

only_while_running_example :
    ((middleware memory (codes "t2") false (codes "k1") (pos 1000) 50 50 handler first_started).0
      ≡ duplicate)
    × ((middleware memory
          (codes "t2")
          false
          (codes "k1")
          (pos 1000)
          90
          90
          handler
          (middleware memory (codes "t1") false (codes "k1") (pos 1000) 10 80 handler nobody).1).0
        ≡ passed)
unfolding check as_duplicate try_lock tried list_beq
only_while_running_example =
    only_while_running memory (codes "t1") (codes "t2") (codes "k1") (pos 1000) (pos 1000) 10 50 80
      90 (record { key = codes "idem:k1"; token = codes "t1" }) handler handler nobody first_started
      refl refl (omega arith) (omega arith) refl (omega arith)
