-- ===== src/Runtimeguard/Windows.antt =====
-- runtimeguard/redis.go: the limiter's script, over the commands of Redis on one counter. Times are
-- the milliseconds of the clock of Redis.
use synapse_go.Base.{
  ℕ, ◌+◌, ◌-◌, ◌≤◌, ◌<◌, ◌≡◌, Bool, false, ◌||◌, Option, none, some, List, [], ◌∷◌, ◌==◌, leb,
  if◌then◌else◌, ℤ, pos, negsuc, ltb_ℤ, leb_ℤ, nat_eq, list_beq, Text, text_eq,
}

-- What a key holds: a count, and when it expires, if ever.
pub record Cell : Type 0 where
  pub count : ℕ
  pub deadline : Option ℕ

unfoldable pub is_over : ℕ → Option ℕ → Bool
is_over t none = false
is_over t (some d) = leb d t

unfoldable pub lapse : ℕ → Option Cell → Option Cell
lapse t none = none
lapse t (some c) = if is_over t c.deadline then none else some c

unfoldable pub bumped : Option Cell → Cell
bumped none = record { count = 1; deadline = none }
bumped (some c) = record c { count = c.count + 1 }

unfoldable pub until : ℕ → Option Cell → Option Cell
until d none = none
until d (some c) = some (record c { deadline = some d })

-- `cell k t s` is what the key holds at `t`; GET and PTTL read it. INCR starts an absent key at one,
-- without a time to live, and keeps the time to live of another.
pub record Windows : Type 1 where
  pub Store : Type 0
  pub cell : Text → ℕ → Store → Option Cell
  pub incr : Text → ℕ → Store → Store
  pub pexpire : Text → ℕ → ℕ → Store → Store
  pub cell_later :
      (k : Text) (now t : ℕ) (s : Store) → now ≤ t → cell k t s ≡ lapse t (cell k now s)
  pub cell-incr :
      (k j : Text) (now : ℕ) (s : Store)
      → cell j now (incr k now s)
        ≡ (if list_beq k j then some (bumped (cell k now s)) else cell j now s)
  pub cell-pexpire :
      (k j : Text) (ms now : ℕ) (s : Store)
      → 0 < ms
      → cell j now (pexpire k ms now s)
        ≡ (if list_beq k j then until (now + ms) (cell k now s) else cell j now s)

unfoldable pub count_of : Option Cell → ℕ
count_of none = 0
count_of (some c) = c.count

unfoldable pub left_until : ℕ → Option ℕ → ℤ
left_until now none = negsuc 0
left_until now (some d) = pos (d - now)

-- PTTL: -2 for no key, -1 for no time to live.
unfoldable pub pttl_of : ℕ → Option Cell → ℤ
pttl_of now none = negsuc 1
pttl_of now (some c) = left_until now c.deadline

module _ (R : Windows) where
  open R use {Store, cell, incr, pexpire}

  -- `redisLimiterScript`, with its three answers: allowed, the count and the time to live.
  unfoldable pub limiter_script : Text → ℕ → ℤ → ℕ → Store → List ℤ × Store
  unfolding count_of pttl_of
  limiter_script key window limit now s =
      let current = count_of (cell key now s) in
      let ttl = pttl_of now (cell key now s) in
      let incremented = incr key now s in
      let next = count_of (cell key now incremented) in
      if leb_ℤ limit (pos current)
      then if ltb_ℤ ttl (pos 0)
        then (pos 0 ∷ pos current ∷ pos window ∷ [], pexpire key window now s)
        else (pos 0 ∷ pos current ∷ ttl ∷ [], s)
      else if next == 1 || ltb_ℤ ttl (pos 0)
      then (pos 1 ∷ pos next ∷ pos window ∷ [], pexpire key window now incremented)
      else (pos 1 ∷ pos next ∷ ttl ∷ [], incremented)
