-- ===== src/Runtimeguard/Limiter/Window.antt =====
-- How many events the limiter lets through.
use synapse_go.Base.{
  ℕ, zero, suc, ◌+◌, ◌-◌, ◌*◌, ◌≤◌, ◌<◌, min, ◌≡◌, refl, ap, subst, ◌∙◌, ◌⊎◌, inl, inr, true, false,
  none, List, [], ◌∷◌, arith, leb, if◌then◌else◌, leb→le, Bool-cases, length, All, ℤ, pos, ◌-ℤ◌,
  nat_eq, lookup, insert, lookup-insert_self, Text, text_eq, is_empty, trim_space, Time, Duration,
  add_time,
}
use synapse_go.Runtimeguard.Limiter.{
  Decision, Bucket, MemoryLimiter, bucket_of, current, retry_at, consume, allow,
}

-- The events let through among calls for one key at the times listed, and the limiter after.
unfoldable pub admitted : Text → ℤ → Duration → List Time → MemoryLimiter → ℕ
admitted key limit window [] l = 0
admitted key limit window (t ∷ ts) l =
    let (l', d) = allow t key limit window l in
    (if d.allowed then 1 else 0) + admitted key limit window ts l'

-- The same on the bucket of the key.
passed : ℕ → ℕ → List Time → Bucket → ℕ
passed limit window [] b = 0
passed limit window (t ∷ ts) b =
    let (b', d) = consume t (pos limit) (pos window) (current t (pos window) b) in
    (if d.allowed then 1 else 0) + passed limit window ts b'

leb_false→lt : (a b : ℕ) → leb a b ≡ false → b < a
leb_false→lt a b h = ground arith

allow_lem :
    (t : Time) (key : Text) (limit window : ℕ) (l : MemoryLimiter)
    → is_empty (trim_space key) ≡ false
    → let b = bucket_of (lookup (trim_space key) l.buckets) in
      let r = consume t (pos (suc limit)) (pos (suc window)) (current t (pos (suc window)) b) in
      allow t key (pos (suc limit)) (pos (suc window)) l
      ≡ (record l { buckets = insert (trim_space key) r.0 l.buckets }, r.1)
unfolding allow
allow_lem t key limit window l k = rw k

bucket_after :
    (k : Text) (b : Bucket) (m : List (Text × Bucket)) → bucket_of (lookup k (insert k b m)) ≡ b
unfolding bucket_of
bucket_after k b m = rw lookup-insert_self

admitted-passed :
    (key : Text) (limit window : ℕ) (ts : List Time) (l : MemoryLimiter)
    → is_empty (trim_space key) ≡ false
    → 0 < limit
    → 0 < window
    → admitted key (pos limit) (pos window) ts l
      ≡ passed limit window ts (bucket_of (lookup (trim_space key) l.buckets))
unfolding admitted passed
admitted-passed key limit window [] l k p w = refl
admitted-passed key zero window (t ∷ ts) l k p w = absurd (omega arith)
admitted-passed key (suc limit) zero (t ∷ ts) l k p w = absurd (omega arith)
admitted-passed key (suc limit) (suc window) (t ∷ ts) l k p w =
    rw (allow_lem t key limit window l k) (
      ap (λ n. (if r.1.allowed then 1 else 0) + n)
        (admitted-passed key (suc limit) (suc window) ts after_one k p w
          ∙ ap (passed (suc limit) (suc window) ts) (bucket_after (trim_space key) r.0 l.buckets)))
  where
    r : Bucket × Decision
    r =
        consume t (pos (suc limit)) (pos (suc window))
          (current t (pos (suc window)) (bucket_of (lookup (trim_space key) l.buckets)))

    after_one : MemoryLimiter
    after_one = record l { buckets = insert (trim_space key) r.0 l.buckets }

stays :
    (t window : ℕ) (b : Bucket)
    → 0 < b.window_start
    → (b.window_start ≤ t) × (t < b.window_start + window)
    → current t (pos window) b ≡ b
unfolding current
stays t window b s h = ground arith

denies :
    (t limit window : ℕ) (b : Bucket)
    → leb limit b.count ≡ true
    → consume t (pos limit) (pos window) b
      ≡ (b, record { allowed = false; remaining = pos 0; retry_after = retry_at t (pos window) b })
unfolding consume
denies t limit window b full = ground arith

counts :
    (t limit window : ℕ) (b : Bucket)
    → leb limit b.count ≡ false
    → consume t (pos limit) (pos window) b ≡ (
      record b { count = b.count + 1 },
      record { allowed = true; remaining = pos limit -ℤ pos (b.count + 1); retry_after = pos 0 },
    )
unfolding consume
counts t limit window b room = ground arith

-- In a window that has begun and is not over, the limit less what is counted passes, and no more.
passed_open :
    (limit window : ℕ) (ts : List Time) (b : Bucket)
    → 0 < b.window_start
    → All (λ t. (b.window_start ≤ t) × (t < b.window_start + window)) ts
    → passed limit window ts b ≡ min (limit - b.count) (length ts)
unfolding passed
passed_open limit window [] b s h = omega arith
passed_open limit window (t ∷ ts) b s h =
    rw (stays t window b s h.0) (elim (Bool-cases (leb limit b.count)) [
      | inl full ↦
          rw (denies t limit window b full)
            (omega (arith, passed_open limit window ts b s h.1, leb→le limit b.count full))
      | inr room ↦ rw (counts t limit window b room) (
          omega (
            arith,
            passed_open limit window ts (record b { count = b.count + 1 }) s h.1,
            leb_false→lt limit b.count room,
          ))
    ])

passed_new :
    (limit window : ℕ) (t : Time) (ts : List Time)
    → 0 < t
    → 0 < window
    → All (λ u. (t ≤ u) × (u < t + window)) ts
    → let r = consume t (pos limit) (pos window) (record { window_start = t; count = 0 }) in
      (if r.1.allowed then 1 else 0) + passed limit window ts r.0 ≡ min limit (suc (length ts))
unfolding passed
passed_new limit window t ts z w h =
    let b : Bucket = record { window_start = t; count = 0 } in
    subst
      (λ b'.
        let r = consume t (pos limit) (pos window) b' in
        (if r.1.allowed then 1 else 0) + passed limit window ts r.0 ≡ min limit (suc (length ts)))
      (stays t window b z (omega arith))
      (omega (arith, passed_open limit window (t ∷ ts) b z (omega arith, h)))

abbrev pub Ascending : List Time → Type 0
Ascending [] = Unit
Ascending (t ∷ ts) = All (λ u. t ≤ u) ts × Ascending ts

abbrev pub Within : Time → ℕ → List Time → Type 0
Within start window = All (λ t. (start ≤ t) × (t < start + window))

-- Times in a window that starts no later lie in the window of the first of them.
later_window :
    (start t window : ℕ) (ts : List Time)
    → start ≤ t
    → All (λ u. t ≤ u) ts
    → Within start window ts
    → Within t window ts
later_window start t window [] s a h = tt
later_window start t window (u ∷ ts) s a h =
    ((a.0, omega arith), later_window start t window ts s a.1 h.1)

current-cases :
    (t window : ℕ) (b : Bucket)
    → (current t (pos window) b ≡ b)
      ⊎ (current t (pos window) b ≡ record { window_start = t; count = 0 })
unfolding current
current-cases t window b = ground arith

passed_bound :
    (limit window start : ℕ) (ts : List Time) (b : Bucket)
    → 0 < start
    → Ascending ts
    → Within start window ts
    → passed limit window ts b ≤ limit - b.count + limit
unfolding passed
passed_bound limit window start [] b z a h = omega arith
passed_bound limit window start (t ∷ ts) b z a h = elim (current-cases t window b) [
  | inl same ↦ rw same (elim (Bool-cases (leb limit b.count)) [
    | inl full ↦
        rw (denies t limit window b full)
          (omega (arith, passed_bound limit window start ts b z a.1 h.1))
    | inr room ↦ rw (counts t limit window b room) (
        omega (
          arith,
          passed_bound limit window start ts (record b { count = b.count + 1 }) z a.1 h.1,
          leb_false→lt limit b.count room,
        ))
  ])
  | inr new ↦ rw new (
      omega (
        arith,
        passed_new limit window t ts (omega arith) (omega arith)
            (later_window start t window ts h.0.0 a.0 h.1),
      ))
]

-- Calls for one key at times within one window length let through at most twice the limit,
-- whatever was counted before: an interval of that length meets at most two windows. The key is
-- not blank, the limit and the window are positive, and the times are ascending.
pub burst_bound :
    (key : Text) (limit window : ℕ) (start : Time) (ts : List Time) (l : MemoryLimiter)
    → is_empty (trim_space key) ≡ false
    → 0 < limit
    → 0 < window
    → 0 < start
    → Ascending ts
    → Within start window ts
    → admitted key (pos limit) (pos window) ts l ≤ 2 * limit
burst_bound key limit window start ts l k p w z a h =
    rw (admitted-passed key limit window ts l k p w) (
      omega (
        arith,
        passed_bound limit window start ts (bucket_of (lookup (trim_space key) l.buckets)) z a h,
      ))

first_window :
    (limit window : ℕ) (t : Time) (ts : List Time)
    → 0 < t
    → 0 < window
    → Within t window ts
    → passed limit window (t ∷ ts) (bucket_of none) ≡ min limit (suc (length ts))
unfolding passed current bucket_of
first_window limit window t ts z w h = passed_new limit window t ts z w h

-- A key that has no bucket opens a window at its first call: of all calls before the window is
-- over, exactly as many pass as the limit allows.
window_exact :
    (key : Text) (limit window : ℕ) (t : Time) (ts : List Time) (l : MemoryLimiter)
    → is_empty (trim_space key) ≡ false
    → lookup (trim_space key) l.buckets ≡ none
    → 0 < limit
    → 0 < window
    → 0 < t
    → Within t window ts
    → admitted key (pos limit) (pos window) (t ∷ ts) l ≡ min limit (length (t ∷ ts))
window_exact key limit window t ts l k absent p w z h =
    admitted-passed key limit window (t ∷ ts) l k p w
    ∙ ap (λ o. passed limit window (t ∷ ts) (bucket_of o)) absent
    ∙ first_window limit window t ts z w h

retry_covers :
    (now : Time) (window : ℕ) (b : Bucket)
    → now < b.window_start + window
    → retry_at now (pos window) b ≡ pos (b.window_start + window - now)
unfolding retry_at
retry_covers now window b h = ground arith

-- A refusal in an open window says how long to wait: a call after exactly the returned duration
-- opens a new window and is let through. The limit is positive.
retry_after_enough :
    (now : Time) (limit window : ℕ) (b : Bucket)
    → 0 < limit
    → 0 < b.window_start
    → b.window_start ≤ now
    → now < b.window_start + window
    → limit ≤ b.count
    → let wait = (consume now (pos limit) (pos window) b).1.retry_after in
      let later = add_time now wait in
      (consume later (pos limit) (pos window) (current later (pos window) b)).1.allowed ≡ true
unfolding consume current
retry_after_enough now limit window b p s o h full = ground (arith, retry_covers now window b h)
