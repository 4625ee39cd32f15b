-- ===== src/Lock/Keys.antt =====
-- The commands of Redis on string keys that the locks call, at the time of the call.
use synapse_go.Base.{
  ℕ, ◌+◌, ◌*◌, ◌≤◌, ◌≡◌, Bool, true, false, ◌&&◌, Option, none, some, ltb, if◌then◌else◌, nat_eq,
  list_beq, Text, text_eq, Time, Duration,
}

abbrev pub is_none : Option Text → Bool
is_none none = true
is_none (some v) = false

-- What a key written at `start` for `span` reads as at `t`.
abbrev pub live : Text → Time → ℕ → Time → Option Text
live v start span t = if ltb t (start + span) then some v else none

-- `get k t s` is what GET finds at the time `t`. SETNX writes only where GET finds nothing, under a
-- time to live that `lifetime` makes of the caller's; PEXPIRE counts milliseconds.
pub record Keys : Type 1 where
  pub Store : Type 0
  pub lifetime : Duration → ℕ
  pub get : Text → Time → Store → Option Text
  pub set_nx : Text → Text → Duration → Time → Store → Bool × Store
  pub del : Text → Time → Store → Store
  pub pexpire : Text → ℕ → Time → Store → Store
  pub set_nx_result :
      (k v : Text) (ttl : Duration) (now : Time) (s : Store)
      → (set_nx k v ttl now s).0 ≡ is_none (get k now s)
  pub get-set_nx :
      (k v j : Text) (ttl : Duration) (now t : Time) (s : Store)
      → now ≤ t
      → get j t (set_nx k v ttl now s).1
        ≡ (if list_beq k j && is_none (get k now s) then live v now (lifetime ttl) t else get j t s)
  pub get-del :
      (k j : Text) (now t : Time) (s : Store)
      → now ≤ t
      → get j t (del k now s) ≡ (if list_beq k j then none else get j t s)
  pub get-pexpire :
      (k j v : Text) (ms : ℕ) (now t : Time) (s : Store)
      → now ≤ t
      → get k now s ≡ some v
      → get j t (pexpire k ms now s)
        ≡ (if list_beq k j then live v now (ms * 1000000) t else get j t s)

module _ (R : Keys) where
  open R use {Store, get, del, pexpire}

  unfoldable pub holds : Text → Option Text → Bool
  holds token none = false
  holds token (some v) = list_beq v token

  -- `unlockScript`, `luaRelease` and `redisLockReleaseScript`: the number of keys deleted.
  unfoldable pub unlock_script : Text → Text → Time → Store → ℕ × Store
  unlock_script key token now s = if holds token (get key now s) then (1, del key now s) else (0, s)

  unfoldable pub renew_script : Text → Text → ℕ → Time → Store → ℕ × Store
  renew_script key token ms now s =
      if holds token (get key now s) then (1, pexpire key ms now s) else (0, s)
