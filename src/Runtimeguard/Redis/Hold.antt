-- ===== src/Runtimeguard/Redis/Hold.antt =====
-- Who holds a lock of runtimeguard over Redis.
use synapse_go.Base.{
  ℕ, suc, ◌+◌, ◌≤◌, ◌<◌, ◌≡◌, refl, ap, subst, ◌∙◌, ◌≢◌, ◌⊎◌, inr, Bool, true, false, Option, some,
  arith, ℤ, pos, nat_eq, beq_refl, beq_false, Text, text_eq, is_empty, is_space, trim_space,
  trim_idem, Time, Duration,
}
use synapse_go.Lock.Keys.{is_none, Keys, holds, unlock_script}
use synapse_go.Runtimeguard.Redis.{
  Err, redis_value_int, eval_int, RedisLock, RedisLockManager, lock_key, Outcome, locked, taken,
  granted, acquire_with, acquire, released, release, release_lock,
}

module _ (R : Keys) (parse_int : Text → Option ℤ) (m : RedisLockManager) where
  open R use {Store, lifetime, get, set_nx, del}

  abbrev acquire_call : Text → Text → Text → Duration → Time → Store → Outcome × Store
  acquire_call token key owner ttl now s =
      acquire R parse_int (some token) false key owner ttl now m s

  abbrev release_call : Text → Text → Time → Store → (Err ⊎ Bool) × Store
  release_call key token now s = release R parse_int false key token now m s

  taken_store :
      (token key owner : Text) (ttl : Duration) (now t : Time) (l : RedisLock) (s : Store)
      → (acquire_call token key owner ttl now s).0 ≡ locked l
      → now ≤ t
      → t < now + lifetime ttl
      → let s' = (acquire_call token key owner ttl now s).1 in
        (l ≡ record { key = trim_space key; owner = trim_space owner; token = token })
        × (get (lock_key m (trim_space key)) t s' ≡ some token)
  unfolding acquire acquire_with granted
  taken_store token key owner ttl now t l s ok a b =
      let k = lock_key m (trim_space key) in
      ground (
        arith,
        R.get-set_nx k token k ttl now t s a,
        R.set_nx_result k token ttl now s,
        beq_refl {A = Text} k,
      )

  others_wait :
      (token key owner : Text) (ttl : ℕ) (t : Time) (s : Store)
      → m.has_store ≡ true
      → is_empty (trim_space key) ≡ false
      → is_empty (trim_space owner) ≡ false
      → is_none (get (lock_key m (trim_space key)) t s) ≡ false
      → (acquire_call token key owner (pos (suc ttl)) t s).0 ≡ taken
  unfolding acquire acquire_with granted
  others_wait token key owner ttl t s has ne no_owner held =
      let k = lock_key m (trim_space key) in
      ground (arith, R.set_nx_result k token (pos (suc ttl)) t s)

  strangers_refused :
      (token other key : Text) (t : Time) (s : Store)
      → m.has_store ≡ true
      → get (lock_key m (trim_space key)) t s ≡ some token
      → trim_space other ≢ token
      → release_call key other t s ≡ (inr false, s)
  unfolding release released eval_int redis_value_int unlock_script holds
  strangers_refused token other key t s has held distinct =
      ground (arith, beq_false {A = Text} token (trim_space other))

  owner_releases :
      (token key : Text) (t : Time) (s : Store)
      → m.has_store ≡ true
      → is_empty (trim_space key) ≡ false
      → is_empty token ≡ false
      → trim_space token ≡ token
      → get (lock_key m (trim_space key)) t s ≡ some token
      → release_call key token t s ≡ (inr true, del (lock_key m (trim_space key)) t s)
  unfolding release released eval_int redis_value_int unlock_script holds
  owner_releases token key t s has ne tne same held = ground (arith, beq_refl {A = Text} token)

  lock_released :
      (token key owner : Text) (t : Time) (l : RedisLock) (s : Store)
      → m.has_store ≡ true
      → is_empty (trim_space key) ≡ false
      → is_empty token ≡ false
      → trim_space token ≡ token
      → l ≡ record { key = trim_space key; owner = trim_space owner; token = token }
      → get (lock_key m (trim_space key)) t s ≡ some token
      → release_lock R parse_int false l t m s ≡ (inr true, del (lock_key m (trim_space key)) t s)
  unfolding release_lock
  lock_released token key owner t l s has ne tne same mine held =
      let twice = trim_idem is_space key in
      ap (λ h. release_lock R parse_int false h t m s) mine
      ∙ owner_releases token (trim_space key) t s has (rw twice ne) tne same (rw twice held)
      ∙ ap (λ k. (inr true, del (lock_key m k) t s)) twice

  freed :
      (token key owner : Text) (ttl : ℕ) (t later : Time) (s : Store)
      → m.has_store ≡ true
      → is_empty (trim_space key) ≡ false
      → is_empty (trim_space owner) ≡ false
      → t ≤ later
      → (acquire_call token key owner
          (pos (suc ttl))
          later
          (del (lock_key m (trim_space key)) t s)).0
        ≡ locked (record { key = trim_space key; owner = trim_space owner; token = token })
  unfolding acquire acquire_with granted
  freed token key owner ttl t later s has ne no_owner le =
      let k = lock_key m (trim_space key) in
      ground (
        arith,
        R.set_nx_result k token (pos (suc ttl)) later (del k t s),
        R.get-del k k t later s le,
        beq_refl {A = Text} k,
      )

  -- A lock that has been granted is its owner's until its time to live is over: another request for
  -- the key finds it taken, a release under another token changes nothing, and a release under its
  -- own token succeeds and gives the next request the lock. Redis answers, the key and the other
  -- owner are not blank, and the lock's token, drawn as hexadecimal digits, is not empty and has no
  -- space at its ends.
  pub hold_owned :
      (token stranger key owner next_owner : Text) (ttl next_ttl : ℕ) (now t later : Time)
      (l : RedisLock) (s s' : Store)
      → m.has_store ≡ true
      → is_empty (trim_space key) ≡ false
      → is_empty (trim_space next_owner) ≡ false
      → is_empty token ≡ false
      → trim_space token ≡ token
      → trim_space stranger ≢ token
      → acquire_call token key owner (pos ttl) now s ≡ (locked l, s')
      → now ≤ t
      → t < now + lifetime (pos ttl)
      → t ≤ later
      → let next : RedisLock = record {
        key = trim_space key;
        owner = trim_space next_owner;
        token = stranger;
      } in
        ((acquire_call stranger key next_owner (pos (suc next_ttl)) t s').0 ≡ taken)
        × (release_call key stranger t s' ≡ (inr false, s'))
        × ((release_lock R parse_int false l t m s').0 ≡ inr true)
        × ((acquire_call stranger key next_owner
              (pos (suc next_ttl))
              later
              (release_lock R parse_int false l t m s').1).0
            ≡ locked next)
  unfolding release_lock
  hold_owned token stranger key owner next_owner ttl next_ttl now t later l s s' has ne some_owner
        tne same distinct ok a b le =
      let k = lock_key m (trim_space key) in
      let mine = taken_store token key owner (pos ttl) now t l s (ap (λ r. r.0) ok) a b in
      let held : get k t s' ≡ some token =
        subst (λ u. get k t u ≡ some token) (ap (λ r. r.1) ok) mine.1 in
      let given : release_lock R parse_int false l t m s' ≡ (inr true, del k t s') =
        lock_released token key owner t l s' has ne tne same mine.0 held in
      (
        others_wait stranger key next_owner next_ttl t s' has ne some_owner (rw held refl),
        strangers_refused token stranger key t s' has held distinct,
        ap (λ r. r.0) given,
        ap (λ r. (acquire_call stranger key next_owner (pos (suc next_ttl)) later r.1).0) given
            ∙ freed stranger key next_owner next_ttl t later s' has ne some_owner le,
      )
