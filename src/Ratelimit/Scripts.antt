-- ===== src/Ratelimit/Scripts.antt =====
-- ratelimit/scripts.go: the Lua scripts, as functions of the counters that Redis holds.
use synapse_go.Base.{
  ℕ, suc, ◌≡◌, Bool, true, false, Option, none, some, List, [], ◌∷◌, map, if◌then◌else◌, ℤ, pos,
  negsuc, ◌+ℤ◌, ◌-ℤ◌, ltb_ℤ, leb_ℤ, nat_eq, list_beq, Text, text_eq,
}

unfoldable pub or_zero : Option ℤ → ℤ
or_zero none = pos 0
or_zero (some n) = n

-- The commands of Redis on integer keys that the scripts call, and what Redis documents of them.
-- A script runs alone and in no time, so a key that is given a time to live keeps its value in it.
pub record Counters : Type 1 where
  pub Store : Type 0
  pub get : Text → Store → Option ℤ
  pub incr_by : Text → ℤ → Store → Store
  pub expire : Text → ℕ → Store → Store
  pub get-incr_by :
      (k j : Text) (n : ℤ) (s : Store)
      → get j (incr_by k n s) ≡ (if list_beq k j then some (or_zero (get k s) +ℤ n) else get j s)
  pub get-expire : (k j : Text) (ttl : ℕ) (s : Store) → get j (expire k ttl s) ≡ get j s

-- One key of `luaCheckAndIncrement` with its three arguments.
pub record Entry : Type 0 where
  pub key : Text
  pub limit : ℤ
  pub increment : ℤ
  pub ttl : ℕ

pub record Reply : Type 0 where
  pub allowed : Bool
  pub deny_index : Option ℕ  -- `none` is -1
  pub remaining : List ℤ

module _ (C : Counters) where
  open C use {Store, get, incr_by, expire}

  unfoldable pub count : Text → Store → ℤ
  count k s = or_zero (get k s)

  unfoldable pub over : Entry → Store → Bool
  over e s = ltb_ℤ e.limit (count e.key s +ℤ e.increment)

  -- Phase 1: the index of the first key over its limit.
  unfoldable pub first_over : ℕ → List Entry → Store → Option ℕ
  first_over i [] s = none
  first_over i (e ∷ es) s = let rest = first_over (suc i) es s in if over e s then some i else rest

  -- What a denied call returns for each key: the room left before the first denial, 0 from it on.
  unfoldable pub room_before : List Entry → Store → List ℤ
  room_before [] s = []
  room_before (e ∷ es) s =
      let rest = room_before es s in
      if over e s
      then pos 0 ∷ map (λ _. pos 0) es
      else ((e.limit -ℤ count e.key s) -ℤ e.increment) ∷ rest

  -- Phase 2.
  unfoldable pub bump : Entry → Store → Store
  bump e s = expire e.key e.ttl (incr_by e.key e.increment s)

  unfoldable pub bump_all : List Entry → Store → Store
  bump_all [] s = s
  bump_all (e ∷ es) s = bump_all es (bump e s)

  unfoldable pub room_after : List Entry → Store → List ℤ
  room_after [] s = []
  room_after (e ∷ es) s =
      (e.limit -ℤ count e.key (incr_by e.key e.increment s)) ∷ room_after es (bump e s)

  unfoldable pub decide_from : Option ℕ → List Entry → Store → Reply × Store
  decide_from (some i) es s =
      (record { allowed = false; deny_index = some i; remaining = room_before es s }, s)
  decide_from none es s =
      (record { allowed = true; deny_index = none; remaining = room_after es s }, bump_all es s)

  unfoldable pub check_and_increment : List Entry → Store → Reply × Store
  check_and_increment es s = decide_from (first_over 0 es s) es s

  unfoldable pub concurrency_acquire : Text → ℤ → ℕ → Store → Bool × Store
  concurrency_acquire k limit ttl s =
      if leb_ℤ limit (count k s) then (false, s) else (true, expire k ttl (incr_by k (pos 1) s))

  unfoldable pub concurrency_release : Text → Store → Store
  concurrency_release k s = if ltb_ℤ (pos 0) (count k s) then incr_by k (negsuc 0) s else s
