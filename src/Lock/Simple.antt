-- ===== src/Lock/Simple.antt =====
-- lock/lock.go and idempotent/idempotent.go: `TryLock` with the unlock function that it returns,
-- `ExecuteWithLock`, and the check of an idempotency key that is built on them.
use synapse_go.Base.{
  ◌⊎◌, inl, inr, Bool, true, false, Option, ◌++◌, if◌then◌else◌, nat_eq, Text, text_eq, codes,
  is_empty, Time, Duration,
}
use synapse_go.Lock.Keys.{Keys, unlock_script}

pub data Err : Type 0 where
  not_acquired duplicate_request redis_failed : Err

-- The unlock function captures the key and the token.
pub record Unlock : Type 0 where
  pub key : Text
  pub token : Text

pub data Tried : Type 0 where
  unlock_by : Unlock → Tried
  failed : Err → Tried

pub data Answer : Type 0 where
  passed duplicate check_failed : Answer

module _ (R : Keys) where
  open R use {Store, set_nx}

  unfoldable pub tried : Text → Text → Bool × Store → Tried × Store
  tried key token (true, s) = (unlock_by (record { key = key; token = token }), s)
  tried key token (false, s) = (failed not_acquired, s)

  unfoldable pub try_lock : Text → Bool → Text → Duration → Time → Store → Tried × Store
  unfolding tried
  try_lock token fault key ttl now s =
      if fault then (failed redis_failed, s) else tried key token (set_nx key token ttl now s)

  unfoldable pub unlock : Unlock → Time → Store → Store
  unlock u now s = (unlock_script R u.key u.token now s).1

  unfoldable pub after_try :
      {E : Type 0} → Tried × Store → Time → (Store → Option E × Store) → (Option E ⊎ Err) × Store
  after_try (failed e, s) later fn = (inr e, s)
  after_try (unlock_by u, s) later fn = let (e, s') = fn s in (inl e, unlock u later s')

  -- `fn` ends at the time `later`, with the store that it leaves and its own error.
  unfoldable pub execute_with_lock :
      {E : Type 0}
      → Text
      → Bool
      → Text
      → Duration
      → Time
      → Time
      → (Store → Option E × Store)
      → Store
      → (Option E ⊎ Err) × Store
  unfolding after_try
  execute_with_lock token fault key ttl now later fn s =
      after_try (try_lock token fault key ttl now s) later fn

  -- `Check`: the lock of the key under the prefix `idem:`.
  unfoldable pub as_duplicate : Tried × Store → Tried × Store
  as_duplicate (failed not_acquired, s) = (failed duplicate_request, s)
  as_duplicate (r, s) = (r, s)

  unfoldable pub check : Text → Bool → Text → Duration → Time → Store → Tried × Store
  unfolding as_duplicate
  check token fault key ttl now s =
      as_duplicate (try_lock token fault (codes "idem:" ++ key) ttl now s)

  -- The middleware: what the client gets, and the store. The handler ends at the time `later`.
  unfoldable pub after_check : Tried × Store → Time → (Store → Store) → Answer × Store
  after_check (unlock_by u, s) later next = (passed, unlock u later (next s))
  after_check (failed duplicate_request, s) later next = (duplicate, s)
  after_check (failed e, s) later next = (check_failed, s)

  unfoldable pub middleware :
      Text → Bool → Text → Duration → Time → Time → (Store → Store) → Store → Answer × Store
  unfolding after_check
  middleware token fault key ttl now later next s =
      if is_empty key
      then (passed, next s)
      else after_check (check token fault key ttl now s) later next
