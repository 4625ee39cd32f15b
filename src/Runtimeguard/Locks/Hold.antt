-- ===== src/Runtimeguard/Locks/Hold.antt =====
-- Who holds a lock.
use synapse_go.Base.{
  ℕ, suc, ◌<◌, ◌≡◌, refl, ◌≢◌, true, false, none, some, List, [], ◌∷◌, arith, All, pos, nat_eq,
  list_beq_iff, lookup, lookup-insert, lookup-insert_self, lookup-delete, Text, text_eq, is_empty,
  trim_space, Time, Duration, add_time,
}
use synapse_go.Runtimeguard.Locks.{
  LockEntry, LockManager, try_lock, unlock, Use, lock, release, step, run,
}

-- A use that another owner makes before the time given.
abbrev pub ByOthers : Text → Time → Use → Type 0
ByOthers owner end (lock now key other ttl) = (trim_space other ≢ owner) × (now < end)
ByOthers owner end (release key other) = trim_space other ≢ owner

lock_others :
    (k owner other : Text) (now : Time) (raw : Text) (ttl : Duration) (m : LockManager)
    (e : LockEntry)
    → lookup k m.locks ≡ some e
    → e.owner ≡ owner
    → trim_space other ≢ owner
    → now < e.expires_at
    → lookup k (try_lock now raw other ttl m).0.locks ≡ some e
unfolding try_lock
lock_others k owner other now raw ttl m e found mine theirs live =
    let key = trim_space raw in
    let entry : LockEntry = record { owner = trim_space other; expires_at = add_time now ttl } in
    ground (
      arith,
      lookup-insert key k entry m.locks,
      list_beq_iff key k,
      list_beq_iff e.owner (trim_space other),
    )

release_others :
    (k owner other raw : Text) (m : LockManager) (e : LockEntry)
    → lookup k m.locks ≡ some e
    → e.owner ≡ owner
    → trim_space other ≢ owner
    → lookup k (unlock raw other m).locks ≡ some e
unfolding unlock
release_others k owner other raw m e found mine theirs =
    let key = trim_space raw in
    ground (
      arith,
      lookup-delete key k m.locks,
      list_beq_iff key k,
      list_beq_iff e.owner (trim_space other),
    )

run_others :
    (k owner : Text) (m : LockManager) (e : LockEntry) (us : List Use)
    → lookup k m.locks ≡ some e
    → e.owner ≡ owner
    → All (ByOthers owner e.expires_at) us
    → lookup k (run m us).locks ≡ some e
unfolding run step
run_others k owner m e [] found mine h = found
run_others k owner m e (lock now raw other ttl ∷ us) found mine h =
    run_others k owner (try_lock now raw other ttl m).0 e us
      (lock_others k owner other now raw ttl m e found mine h.0.0 h.0.1) mine h.1
run_others k owner m e (release raw other ∷ us) found mine h =
    run_others k owner (unlock raw other m) e us
      (release_others k owner other raw m e found mine h.0) mine h.1

refused :
    (now : Time) (raw other : Text) (ttl : Duration) (m : LockManager) (e : LockEntry)
    → lookup (trim_space raw) m.locks ≡ some e
    → e.owner ≢ trim_space other
    → now < e.expires_at
    → (try_lock now raw other ttl m).1 ≡ false
unfolding try_lock
refused now raw other ttl m e found theirs live =
    ground (arith, list_beq_iff e.owner (trim_space other))

granted :
    (now : Time) (raw owner : Text) (ttl : Duration) (m : LockManager)
    → (try_lock now raw owner ttl m).1 ≡ true
    → lookup (trim_space raw) (try_lock now raw owner ttl m).0.locks
      ≡ some (record { owner = trim_space owner; expires_at = add_time now ttl })
unfolding try_lock
granted now raw owner ttl m ok =
    let entry : LockEntry = record { owner = trim_space owner; expires_at = add_time now ttl } in
    ground (arith, lookup-insert_self (trim_space raw) entry m.locks)

-- Mutual exclusion. Once an owner is granted a lock, and whatever other owners do with any lock
-- before it expires, their unlock functions included, another owner is refused it until then.
pub hold_exclusive :
    (t now : Time) (key owner other : Text) (ttl wait : Duration) (m : LockManager) (us : List Use)
    → (try_lock t key owner ttl m).1 ≡ true
    → All (ByOthers (trim_space owner) (add_time t ttl)) us
    → trim_space owner ≢ trim_space other
    → now < add_time t ttl
    → (try_lock now key other wait (run (try_lock t key owner ttl m).0 us)).1 ≡ false
hold_exclusive t now key owner other ttl wait m us ok quiet differ live =
    let e : LockEntry = record { owner = trim_space owner; expires_at = add_time t ttl } in
    refused now key other wait (run (try_lock t key owner ttl m).0 us) e
      (run_others (trim_space key) (trim_space owner) (try_lock t key owner ttl m).0 e us
        (granted t key owner ttl m ok) refl quiet)
      differ live

unlock_held :
    (raw owner : Text) (m : LockManager) (e : LockEntry)
    → lookup (trim_space raw) m.locks ≡ some e
    → e.owner ≡ trim_space owner
    → lookup (trim_space raw) (unlock raw owner m).locks ≡ none
unfolding unlock
unlock_held raw owner m e found mine = ground (
  arith,
  lookup-delete (trim_space raw) (trim_space raw) m.locks,
  list_beq_iff (trim_space raw) (trim_space raw),
  list_beq_iff e.owner (trim_space owner),
)

free_granted :
    (now : Time) (raw owner : Text) (ttl : ℕ) (m : LockManager)
    → lookup (trim_space raw) m.locks ≡ none
    → is_empty (trim_space raw) ≡ false
    → is_empty (trim_space owner) ≡ false
    → (try_lock now raw owner (pos (suc ttl)) m).1 ≡ true
unfolding try_lock
free_granted now raw owner ttl m free k o = ground arith

-- The unlock function of a hold takes the lock from the next hold of the same owner as well, live
-- or not: after it, anyone is granted the lock. So to call an unlock function a second time is not
-- without effect when the owner has locked again in between.
unlock_not_idempotent :
    (t now : Time) (key owner other : Text) (ttl : Duration) (wait : ℕ) (m : LockManager)
    → (try_lock t key owner ttl (unlock key owner m)).1 ≡ true
    → is_empty (trim_space key) ≡ false
    → is_empty (trim_space other) ≡ false
    → (try_lock now key other
        (pos (suc wait))
        (unlock key owner (try_lock t key owner ttl (unlock key owner m)).0)).1
      ≡ true
unlock_not_idempotent t now key owner other ttl wait m ok k o =
    free_granted now key other wait _
      (unlock_held key owner (try_lock t key owner ttl (unlock key owner m)).0 _
        (granted t key owner ttl (unlock key owner m) ok) refl)
      k o
