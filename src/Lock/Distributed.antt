-- ===== src/Lock/Distributed.antt =====
-- lock/distributed.go: locks with handles. The random token of a call and whether Redis fails it
-- are arguments; a failed call leaves the store as it is.
use synapse_go.Base.{
  ℕ, zero, suc, ◌/◌, Bool, true, false, Option, none, some, ◌++◌, ltb, if◌then◌else◌, ℤ, pos,
  pos_part, ltb_ℤ, nonpos, nat_eq, Text, text_eq, codes, is_empty, Time, Duration,
}
use synapse_go.Lock.Keys.{Keys, unlock_script, renew_script}

pub data Err : Type 0 where
  locked not_owner already_released invalid_ttl empty_key nil_client : Err
  token_failed redis_failed : Err

pub record Config : Type 0 where
  pub key_prefix : Text
  pub token_bytes : ℕ

unfoldable pub default_config : Config
default_config = record { key_prefix = codes "synapse:lock:"; token_bytes = 16 }

unfoldable pub with_token_bytes : ℤ → Config → Config
with_token_bytes n c = record c { token_bytes = if ltb_ℤ n (pos 8) then 8 else pos_part n }

pub record Handle : Type 0 where
  pub full_key : Text
  pub key : Text
  pub token : Text
  pub released : Bool

pub data Acquired : Type 0 where
  handle : Handle → Acquired
  refused : Err → Acquired

unfoldable pub milliseconds : Duration → ℕ
milliseconds d = let ms = pos_part d / 1000000 in if ltb 0 ms then ms else 1

module _ (R : Keys) where
  open R use {Store, set_nx}

  unfoldable pub granted : Text → Text → Text → Bool × Store → Acquired × Store
  granted full_key key token (true, s) =
      (handle (record { full_key = full_key; key = key; token = token; released = false }), s)
  granted full_key key token (false, s) = (refused locked, s)

  -- `none` for the token when the random source fails.
  unfoldable pub acquire_with :
      Config → Option Text → Bool → Text → Duration → Time → Store → Acquired × Store
  unfolding granted
  acquire_with c none fault key ttl now s = (refused token_failed, s)
  acquire_with c (some token) fault key ttl now s =
      if fault
      then (refused redis_failed, s)
      else granted (c.key_prefix ++ key) key token (set_nx (c.key_prefix ++ key) token ttl now s)

  unfoldable pub acquire :
      Config → Option Text → Bool → Text → Duration → Time → Store → Acquired × Store
  unfolding acquire_with
  acquire c token fault key ttl now s =
      if is_empty key
      then (refused empty_key, s)
      else if nonpos ttl
      then (refused invalid_ttl, s)
      else acquire_with c token fault key ttl now s

  unfoldable pub deleted : Handle → ℕ × Store → Option Err × Handle × Store
  deleted h (suc zero, s) = (none, record h { released = true }, s)
  deleted h (_, s) = (some not_owner, record h { released = true }, s)

  -- The handle is marked before the script runs, and unmarked when the call fails.
  unfoldable pub release : Bool → Handle → Time → Store → Option Err × Handle × Store
  unfolding deleted
  release fault h now s =
      if h.released
      then (some already_released, h, s)
      else if fault
      then (some redis_failed, record h { released = false }, s)
      else deleted h (unlock_script R h.full_key h.token now s)

  unfoldable pub renewed : ℕ × Store → Option Err × Store
  renewed (suc zero, s) = (none, s)
  renewed (_, s) = (some not_owner, s)

  unfoldable pub renew : Bool → Handle → Duration → Time → Store → Option Err × Store
  unfolding renewed milliseconds
  renew fault h ttl now s =
      if nonpos ttl
      then (some invalid_ttl, s)
      else if h.released
      then (some already_released, s)
      else if fault
      then (some redis_failed, s)
      else renewed (renew_script R h.full_key h.token (milliseconds ttl) now s)
