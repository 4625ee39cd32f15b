-- ===== src/Runtimeguard/Locks.antt =====
-- runtimeguard/lock.go: locks in the memory of one process. The function that `TryLock` returns to
-- unlock is the operation `unlock` at the trimmed key and owner that it captures.
pub mod Hold
mod Tests
use synapse_go.Base.{
  ℕ, zero, suc, ◌+◌, ◌-◌, ◌*◌, ◌/◌, ◌%◌, ◌^◌, ◌≤◌, ◌<◌, min, ◌≡◌, refl, sym, ap, ap₂, subst, ◌∙◌,
  ◌≢◌, ◌↔◌, ◌⊎◌, inl, inr, Bool, true, false, not, ◌&&◌, ◌||◌, Option, none, some, List, [], ◌∷◌,
  ◌++◌, map, arith, ◌==◌, ==_iff, ltb, leb, if◌then◌else◌, ltb→lt, ltb_false→le, leb→le, Bool-cases,
  Option-cases, length, take, drop, length-append, length-take, length-drop, All, Any, here, there,
  ℤ, pos, negsuc, pos_part, neg_part, sub_ℕ, ◌+ℤ◌, ◌-ℤ◌, ◌≤ℤ◌, ◌<ℤ◌, ltb_ℤ, leb_ℤ, nonpos, +ℤ_parts,
  -ℤ_parts, eq_of_parts, int_laws, Eq, nat_eq, beq_refl, beq_false, list_beq, list_beq_iff, lookup,
  insert, delete, lookup-insert, lookup-insert_self, lookup-insert_ne, lookup-delete, Text, text_eq,
  codes, is_empty, rune_len, byte_len, is_space, trim_left, trim_right, trim, trim_space,
  has_prefix, first_ok, last_ok, last_ok-trim_right, trim_id, first_ok-trim, last_ok-trim,
  trim_idem, Time, Duration, is_zero, add_time, sub_time, after, seconds,
}

pub record LockEntry : Type 0 where
  pub owner : Text
  pub expires_at : Time

pub record LockManager : Type 0 where
  pub locks : List (Text × LockEntry)

-- `ok && current.expiresAt.After(now) && current.owner != owner`
pub held_by_other : Option LockEntry → Text → Time → Bool
held_by_other none owner now = false
held_by_other (some e) owner now = after e.expires_at now && not (list_beq e.owner owner)

pub try_lock : Time → Text → Text → Duration → LockManager → LockManager × Bool
unfolding held_by_other
try_lock now raw_key raw_owner ttl m =
    let key = trim_space raw_key in
    let owner = trim_space raw_owner in
    if is_empty key || is_empty owner || nonpos ttl
    then (m, false)
    else if held_by_other (lookup key m.locks) owner now
    then (m, false)
    else (
      record m {
        locks = insert key (record { owner = owner; expires_at = add_time now ttl }) m.locks;
      },
      true,
    )

owned_by : Option LockEntry → Text → Bool
owned_by none owner = false
owned_by (some e) owner = list_beq e.owner owner

pub unlock : Text → Text → LockManager → LockManager
unfolding owned_by
unlock raw_key raw_owner m =
    let key = trim_space raw_key in
    let owner = trim_space raw_owner in
    if owned_by (lookup key m.locks) owner then record m { locks = delete key m.locks } else m

-- What the users of a manager do; an unlock names the arguments of the `TryLock` it came from.
pub data Use : Type 0 where
  lock : Time → Text → Text → Duration → Use
  release : Text → Text → Use

pub step : LockManager → Use → LockManager
step m (lock now key owner ttl) = (try_lock now key owner ttl m).0
step m (release key owner) = unlock key owner m

pub run : LockManager → List Use → LockManager
run m [] = m
run m (u ∷ us) = run (step m u) us
