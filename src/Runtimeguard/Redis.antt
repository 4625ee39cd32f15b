-- ===== src/Runtimeguard/Redis.antt =====
-- runtimeguard/redis.go: the limiter and the lock manager over Redis. A store that is nil, a token
-- that cannot be drawn and a command that fails are arguments; a failed command has changed nothing.
pub mod Script
pub mod Calls
pub mod Agreement
pub mod Same
pub mod Wait
pub mod Hold
pub mod Sample
mod Tests
use synapse_go.Base.{
  ℕ, zero, suc, ◌+◌, ◌-◌, ◌*◌, ◌/◌, ◌%◌, ◌^◌, ◌≤◌, ◌<◌, min, ◌≡◌, refl, sym, ap, ap₂, subst, ◌∙◌,
  ◌≢◌, ◌↔◌, ◌⊎◌, inl, inr, Bool, true, false, not, ◌&&◌, ◌||◌, Option, none, some, List, [], ◌∷◌,
  ◌++◌, map, arith, ◌==◌, ==_iff, ltb, leb, if◌then◌else◌, ltb→lt, ltb_false→le, leb→le, Bool-cases,
  Option-cases, ap-if, Sum-cases, length, take, drop, length-append, length-take, length-drop, All,
  Any, here, there, ℤ, pos, negsuc, pos_part, neg_part, sub_ℕ, ◌+ℤ◌, ◌-ℤ◌, ◌≤ℤ◌, ◌<ℤ◌, ltb_ℤ, leb_ℤ,
  nonpos, +ℤ_parts, -ℤ_parts, eq_of_parts, int_laws, ltb_ℤ_false, eq_ℤ, eq_ℤ_refl, eq_of_eq_ℤ, Eq,
  nat_eq, beq_refl, beq_false, ne_of_beq, list_beq, list_beq_iff, lookup, insert, delete,
  lookup-insert, lookup-insert_self, lookup-insert_ne, lookup-delete, Text, text_eq, codes,
  is_empty, rune_len, byte_len, is_space, trim_left, trim_right, trim, trim_space, has_prefix,
  first_ok, last_ok, last_ok-trim_right, trim_id, first_ok-trim, last_ok-trim, trim_idem,
  trim_prefix, all_runes, Cases, upper_rune, lower_rune, to_upper, to_lower, ascii_cases, Time,
  Duration, is_zero, add_time, sub_time, after, seconds, digits_before, format_nat, format_int,
}
use synapse_go.Runtimeguard.Limiter.{
  Decision, Bucket, MemoryLimiter, new_memory_limiter, bucket_of, current, retry_at, consume, allow,
}
use synapse_go.Runtimeguard.Windows.{
  Cell, lapse, bumped, until, Windows, count_of, pttl_of, limiter_script,
}
use synapse_go.Lock.Keys.{is_none, live, Keys, holds, unlock_script, renew_script}

pub data Err : Type 0 where
  client_failed not_an_array not_an_integer : Err
  store_nil invalid_response token_failed : Err

-- What the client library gives back, an array's items among them.
pub data Item : Type 0 where
  integer : ℤ → Item
  text : Text → Item
  other_type : Item

pub data Value : Type 0 where
  item : Item → Value
  array : List Item → Value

unfoldable pub redis_key_prefix : Text → Text
redis_key_prefix raw =
    let prefix = trim_space raw in
    if is_empty prefix
    then codes "runtimeguard:"
    else if last_ok (λ c. not (c == 58)) prefix
    then prefix ++ codes ":"
    else prefix

unfoldable pub duration_millis : Duration → ℕ
duration_millis (pos d) = let ms = d / 1000000 in if ms == 0 then 1 else ms
duration_millis (negsuc d) = 1

-- `time.Duration(n) * time.Millisecond`
unfoldable pub of_millis : ℤ → Duration
of_millis (pos n) = pos (n * 1000000)
of_millis (negsuc n) = negsuc (n * 1000000 + 999999)

unfoldable pub denied : Duration → Decision
denied window = record { allowed = false; remaining = pos 0; retry_after = window }

unfoldable pub redis_limiter_decision : ℤ → ℤ → ℤ → ℤ → Duration → Decision
redis_limiter_decision allowed count ttl limit window =
    let left = limit -ℤ count in
    let remaining = if ltb_ℤ left (pos 0) then pos 0 else left in
    let wait = if ltb_ℤ (of_millis ttl) (pos 0) then pos 0 else of_millis ttl in
    if eq_ℤ allowed (pos 1)
    then record { allowed = true; remaining = remaining; retry_after = pos 0 }
    else denied (if eq_ℤ wait (pos 0) then window else wait)

-- An answer of three numbers is a decision; no other is.
unfoldable pub decide : List ℤ → ℤ → Duration → Decision × Option Err
decide (a ∷ c ∷ t ∷ []) limit window = (redis_limiter_decision a c t limit window, none)
decide _ limit window = (denied window, some invalid_response)

pub record RedisLimiter : Type 0 where
  pub has_store : Bool
  pub key_prefix : Text

unfoldable pub new_redis_limiter : Bool → Text → RedisLimiter
new_redis_limiter has_store prefix = record {
  has_store = has_store;
  key_prefix = redis_key_prefix prefix;
}

unfoldable pub limiter_key : RedisLimiter → Text → Text
limiter_key l key = l.key_prefix ++ (codes "limiter:" ++ key)

module _ (parse_int : Text → Option ℤ) where
  unfoldable pub parsed_int : Option ℤ → Err ⊎ ℤ
  parsed_int none = inl not_an_integer
  parsed_int (some n) = inr n

  unfoldable pub redis_value_int : Item → Err ⊎ ℤ
  redis_value_int (integer n) = inr n
  redis_value_int (text t) = parsed_int (parse_int t)
  redis_value_int other_type = inl not_an_integer

  unfoldable pub with_int : Err ⊎ ℤ → Err ⊎ List ℤ → Err ⊎ List ℤ
  with_int (inl e) rest = inl e
  with_int (inr n) (inl e) = inl e
  with_int (inr n) (inr ns) = inr (n ∷ ns)

  unfoldable pub values_int : List Item → Err ⊎ List ℤ
  values_int [] = inr []
  values_int (v ∷ vs) = with_int (redis_value_int v) (values_int vs)

  -- What EVAL answers, as numbers; `none` is an error of the client.
  unfoldable pub eval_int_slice : Option Value → Err ⊎ List ℤ
  eval_int_slice none = inl client_failed
  eval_int_slice (some (array vs)) = values_int vs
  eval_int_slice (some (item v)) = inl not_an_array

  unfoldable pub eval_int : Option Value → Err ⊎ ℤ
  eval_int none = inl client_failed
  eval_int (some (item v)) = redis_value_int v
  eval_int (some (array vs)) = inl not_an_integer

  unfoldable pub decision_of : Err ⊎ List ℤ → ℤ → Duration → Decision × Option Err
  decision_of (inl e) limit window = (denied window, some e)
  decision_of (inr ns) limit window = decide ns limit window

  module _ (W : Windows) where
    open W use {Store}

    unfoldable pub allow_redis :
        Bool → ℕ → Text → ℤ → Duration → RedisLimiter → Store → (Decision × Option Err) × Store
    allow_redis fault now raw limit window l s =
        let key = trim_space raw in
        let (ns, s') = limiter_script W (limiter_key l key) (duration_millis window) limit now s in
        if is_empty key || nonpos limit || nonpos window
        then ((denied window, none), s)
        else if not l.has_store
        then ((denied window, some store_nil), s)
        else if fault
        then (decision_of (eval_int_slice none) limit window, s)
        else (decision_of (eval_int_slice (some (array (map integer ns)))) limit window, s')

pub record RedisLock : Type 0 where
  pub key : Text
  pub owner : Text
  pub token : Text

pub record RedisLockManager : Type 0 where
  pub has_store : Bool
  pub key_prefix : Text

unfoldable pub new_redis_lock_manager : Bool → Text → RedisLockManager
new_redis_lock_manager has_store prefix = record {
  has_store = has_store;
  key_prefix = redis_key_prefix prefix;
}

unfoldable pub lock_key : RedisLockManager → Text → Text
lock_key m key = m.key_prefix ++ (codes "lock:" ++ key)

pub data Outcome : Type 0 where
  locked : RedisLock → Outcome
  taken : Outcome
  failed : Err → Outcome

module _ (R : Keys) (parse_int : Text → Option ℤ) where
  open R use {Store, set_nx}

  unfoldable pub granted : RedisLock → Bool × Store → Outcome × Store
  granted l (true, s) = (locked l, s)
  granted l (false, s) = (taken, s)

  -- `none` for the token when the random source fails.
  unfoldable pub acquire_with :
      Option Text
      → Bool
      → Text
      → Text
      → Duration
      → Time
      → RedisLockManager
      → Store
      → Outcome × Store
  acquire_with none fault key owner ttl now m s = (failed token_failed, s)
  acquire_with (some token) fault key owner ttl now m s =
      if fault
      then (failed client_failed, s)
      else granted (record { key = key; owner = owner; token = token })
          (set_nx (lock_key m key) token ttl now s)

  unfoldable pub acquire :
      Option Text
      → Bool
      → Text
      → Text
      → Duration
      → Time
      → RedisLockManager
      → Store
      → Outcome × Store
  acquire token fault raw_key raw_owner ttl now m s =
      let key = trim_space raw_key in
      let owner = trim_space raw_owner in
      if is_empty key || is_empty owner || nonpos ttl
      then (taken, s)
      else if not m.has_store
      then (failed store_nil, s)
      else acquire_with token fault key owner ttl now m s

  unfoldable pub released : Err ⊎ ℤ → Err ⊎ Bool
  released (inl e) = inl e
  released (inr n) = inr (eq_ℤ n (pos 1))

  unfoldable pub release :
      Bool → Text → Text → Time → RedisLockManager → Store → (Err ⊎ Bool) × Store
  release fault raw_key raw_token now m s =
      let key = trim_space raw_key in
      let token = trim_space raw_token in
      let (n, s') = unlock_script R (lock_key m key) token now s in
      if is_empty key || is_empty token
      then (inr false, s)
      else if not m.has_store
      then (inl store_nil, s)
      else if fault
      then (released (eval_int parse_int none), s)
      else (released (eval_int parse_int (some (item (integer (pos n))))), s')

  -- `RedisLock.Release`, of a lock that a manager made.
  unfoldable pub release_lock :
      Bool → RedisLock → Time → RedisLockManager → Store → (Err ⊎ Bool) × Store
  release_lock fault l now m s = release fault l.key l.token now m s
