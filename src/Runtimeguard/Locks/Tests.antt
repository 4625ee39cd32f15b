-- ===== src/Runtimeguard/Locks/Tests.antt =====
-- Two owners of one lock.
use synapse_go.Base.{
  ◌≡◌, refl, ◌≢◌, true, false, [], ◌∷◌, arith, pos, nat_eq, ne_of_beq, list_beq, lookup, insert,
  delete, Text, text_eq, codes, is_space, trim, trim_space,
}
use synapse_go.Runtimeguard.Locks.{LockManager, try_lock, unlock, lock, release, step, run}
use synapse_go.Runtimeguard.Locks.Hold.{hold_exclusive}

abbrev none_held : LockManager
none_held = record { locks = [] }

program : Unit {0}
unfolding try_lock unlock step run lookup insert delete list_beq trim is_space
program = tt

abbrev job : Text
job = codes " job "

abbrev ann : Text
ann = codes "ann"

abbrev bob : Text
bob = codes "bob"

relock :
    ((try_lock 5 job ann (pos 10) none_held).1 ≡ true)
    × ((try_lock 14 job bob (pos 10) (try_lock 5 job ann (pos 10) none_held).0).1 ≡ false)
    × ((try_lock 15 job bob (pos 10) (try_lock 5 job ann (pos 10) none_held).0).1 ≡ true)
unfolding program
relock = (refl, refl, refl)

bob_not_ann : trim_space bob ≢ trim_space ann
unfolding program
bob_not_ann = ne_of_beq {A = Text} (trim_space bob) (trim_space ann) refl

ann_not_bob : trim_space ann ≢ trim_space bob
unfolding program
ann_not_bob = ne_of_beq {A = Text} (trim_space ann) (trim_space bob) refl

hold_exclusive_example :
    (try_lock 14 job bob (pos 3) (
      run
        (try_lock 5 job ann (pos 10) none_held).0
        (lock 7 job bob (pos 50) ∷ release job bob ∷ []))).1
    ≡ false
unfolding program
hold_exclusive_example =
    hold_exclusive 5 14 job ann bob (pos 10) (pos 3) none_held
      (lock 7 job bob (pos 50) ∷ release job bob ∷ []) refl
      ((bob_not_ann, omega arith), (bob_not_ann, tt)) ann_not_bob (omega arith)
