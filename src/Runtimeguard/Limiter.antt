-- ===== src/Runtimeguard/Limiter.antt =====
-- runtimeguard/limiter.go: the fixed-window limiter. Methods are called on an existing limiter,
-- and the clock reading of a call is an argument.
pub mod Window
mod Tests
use synapse_go.Base.{
  ℕ, zero, suc, ◌+◌, ◌-◌, ◌*◌, ◌/◌, ◌%◌, ◌^◌, ◌≤◌, ◌<◌, min, ◌≡◌, refl, sym, ap, ap₂, subst, ◌∙◌,
  ◌≢◌, ◌↔◌, ◌⊎◌, inl, inr, Bool, true, false, not, ◌&&◌, ◌||◌, Option, none, some, List, [], ◌∷◌,
  ◌++◌, map, arith, ◌==◌, ==_iff, ltb, leb, if◌then◌else◌, ltb→lt, ltb_false→le, leb→le, Bool-cases,
  Option-cases, length, take, drop, length-append, length-take, length-drop, All, Any, here, there,
  ℤ, pos, negsuc, pos_part, neg_part, sub_ℕ, ◌+ℤ◌, ◌-ℤ◌, ◌≤ℤ◌, ◌<ℤ◌, ltb_ℤ, leb_ℤ, nonpos, +ℤ_parts,
  -ℤ_parts, eq_of_parts, int_laws, Eq, nat_eq, beq_refl, beq_false, list_beq, list_beq_iff, lookup,
  insert, delete, lookup-insert, lookup-insert_self, lookup-insert_ne, lookup-delete, Text, text_eq,
  codes, is_empty, rune_len, byte_len, is_space, trim_left, trim_right, trim, trim_space,
  has_prefix, first_ok, last_ok, last_ok-trim_right, trim_id, first_ok-trim, last_ok-trim,
  trim_idem, Time, Duration, is_zero, add_time, sub_time, after, seconds,
}

pub record Decision : Type 0 where
  pub allowed : Bool
  pub remaining : ℤ
  pub retry_after : Duration

pub record Bucket : Type 0 where
  pub window_start : Time
  pub count : ℕ

pub record MemoryLimiter : Type 0 where
  pub buckets : List (Text × Bucket)

abbrev pub new_memory_limiter : MemoryLimiter
new_memory_limiter = record { buckets = [] }

-- A missing key reads as the zero bucket.
unfoldable pub bucket_of : Option Bucket → Bucket
bucket_of none = record { window_start = 0; count = 0 }
bucket_of (some b) = b

-- The bucket that the call counts in: a new one if the window is over.
unfoldable pub current : Time → Duration → Bucket → Bucket
current now window b =
    if is_zero b.window_start || leb_ℤ window (sub_time now b.window_start)
    then record { window_start = now; count = 0 }
    else b

unfoldable pub retry_at : Time → Duration → Bucket → Duration
retry_at now window b =
    let retry = sub_time (add_time b.window_start window) now in
    if ltb_ℤ retry (pos 0) then pos 0 else retry

unfoldable pub consume : Time → ℤ → Duration → Bucket → Bucket × Decision
unfolding retry_at
consume now limit window b =
    if leb_ℤ limit (pos b.count)
    then (b, record { allowed = false; remaining = pos 0; retry_after = retry_at now window b })
    else (
      record b { count = b.count + 1 },
      record { allowed = true; remaining = limit -ℤ pos (b.count + 1); retry_after = pos 0 },
    )

unfoldable pub allow : Time → Text → ℤ → Duration → MemoryLimiter → MemoryLimiter × Decision
allow now raw limit window l =
    let key = trim_space raw in
    let (b, d) = consume now limit window (current now window (bucket_of (lookup key l.buckets))) in
    if is_empty key || nonpos limit || nonpos window
    then (l, record { allowed = false; remaining = pos 0; retry_after = window })
    else (record l { buckets = insert key b l.buckets }, d)
