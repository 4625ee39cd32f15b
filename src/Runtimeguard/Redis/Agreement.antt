-- ===== src/Runtimeguard/Redis/Agreement.antt =====
-- One key of the limiter over Redis against its bucket in runtimeguard/limiter.go.
use synapse_go.Base.{
  ℕ, suc, ◌+◌, ◌≤◌, ◌<◌, ◌≡◌, sym, ap, subst, ◌∙◌, ◌⊎◌, inl, inr, Option, none, some, arith, leb,
  leb→le, Bool-cases, pos, ◌-ℤ◌, nat_eq, Text, text_eq,
}
use synapse_go.Runtimeguard.Limiter.{Bucket, bucket_of, current, retry_at, consume}
use synapse_go.Runtimeguard.Windows.{Cell, is_over, lapse, Windows, limiter_script}
use synapse_go.Runtimeguard.Redis.{of_millis, denied, redis_limiter_decision, decide}
use synapse_go.Runtimeguard.Redis.Script.{
  script_fresh, script_full, script_more, cell-fresh, cell-more,
}
use synapse_go.Runtimeguard.Redis.Calls.{ms}

-- No window of the bucket is open at `now`.
unfoldable pub Shut : ℕ → ℕ → Bucket → Type 0
Shut w now b = (b.window_start ≡ 0) ⊎ (b.window_start + ms w ≤ ms now)

abbrev opened : ℕ → ℕ → Bucket
opened start n = record { window_start = ms start; count = suc n }

abbrev kept : ℕ → ℕ → ℕ → Cell
kept w start n = record { count = suc n; deadline = some (start + w) }

-- The bucket and the cell of a key stand for the same window.
unfoldable pub Agrees : ℕ → ℕ → Option Bucket → Option Cell → Type 0
Agrees w now b c =
    (Shut w now (bucket_of b) × (c ≡ none))
    ⊎ ((start : ℕ) × (n : ℕ) × (b ≡ some (opened start n))
        × (c ≡ some (kept w start n))
        × (0 < start)
        × (start ≤ now)
        × (now < start + w))

pub later-Agrees :
    (w now t : ℕ) (b : Option Bucket) (c : Option Cell)
    → now ≤ t
    → Agrees w now b c
    → Agrees w t b (lapse t c)
unfolding Agrees Shut lapse is_over bucket_of
later-Agrees w now t b c le (inl (inl z, e)) = inl (inl z, ap (lapse t) e)
later-Agrees w now t b c le (inl (inr z, e)) = inl (inr (omega arith), ap (lapse t) e)
later-Agrees w now t b c le (inr (start, n, eb, ec, p, a, z)) =
    elim (Bool-cases (leb (start + w) t)) [
      | inl over ↦
          inl
            (inr (rw eb (omega (arith, leb→le (start + w) t over))), ap (lapse t) ec ∙ ground arith)
      | inr alive ↦ inr (start, n, eb, ap (lapse t) ec ∙ ground arith, p, omega arith, ground arith)
    ]

module _ (W : Windows) where
  open W use {Store, cell, incr, pexpire}

  -- One call on the bucket and on the cell of its key.
  unfoldable pub Steps : ℕ → ℕ → ℕ → Text → Option Bucket → Store → Type 0
  Steps w limit t k b s =
      let r = limiter_script W k w (pos (suc limit)) t s in
      let before = current (ms t) (pos (ms w)) (bucket_of b) in
      let q = consume (ms t) (pos (suc limit)) (pos (ms w)) before in
      (decide r.0 (pos (suc limit)) (pos (ms w)) ≡ (q.1, none))
      × Agrees w t (some q.0) (cell k t r.1)

  Shut-step :
      (w limit t : ℕ) (k : Text) (b : Option Bucket) (s : Store)
      → 0 < w
      → 0 < t
      → Shut w t (bucket_of b)
      → cell k t s ≡ none
      → Steps w limit t k b s
  unfolding Steps Agrees Shut consume current decide redis_limiter_decision of_millis ◌-ℤ◌
  Shut-step w limit t k b s p z shut e = (
    ground (arith, script_fresh W k w limit t s e),
    inr (
      t,
      0,
      ground arith,
      rw (script_fresh W k w limit t s e) (cell-fresh W k w t s p e),
      z,
      omega arith,
      omega arith,
    ),
  )

  full_step :
      (w limit t start n : ℕ) (k : Text) (s : Store)
      → 0 < start
      → start ≤ t
      → t < start + w
      → cell k t s ≡ some (kept w start n)
      → limit ≤ n
      → Steps w limit t k (some (opened start n)) s
  unfolding Steps Agrees bucket_of consume current decide redis_limiter_decision of_millis denied
      retry_at ◌-ℤ◌
  full_step w limit t start n k s z a b e full =
      let same = script_full W k w (suc limit) (suc n) (start + w) t s e (omega arith) in
      (ground (arith, same), inr (start, n, ground arith, rw same e, z, a, b))

  more_step :
      (w limit t start n : ℕ) (k : Text) (s : Store)
      → 0 < start
      → start ≤ t
      → t < start + w
      → cell k t s ≡ some (kept w start n)
      → n < limit
      → Steps w limit t k (some (opened start n)) s
  unfolding Steps Agrees bucket_of consume current decide redis_limiter_decision of_millis denied
      ◌-ℤ◌
  more_step w limit t start n k s z a b e room =
      let same = script_more W k w (suc limit) n (start + w) t s e (omega arith) in
      (
        ground (arith, same),
        inr (
          start,
          suc n,
          ground arith,
          rw same (cell-more W k (suc n) (start + w) t s e ∙ ground arith),
          z,
          a,
          b,
        ),
      )

  pub agreed_step :
      (w limit t : ℕ) (k : Text) (b : Option Bucket) (s : Store)
      → 0 < w
      → 0 < t
      → Agrees w t b (cell k t s)
      → Steps w limit t k b s
  unfolding Agrees
  agreed_step w limit t k b s p z (inl (shut, e)) = Shut-step w limit t k b s p z shut e
  agreed_step w limit t k b s p z (inr (start, n, eb, ec, q, lo, hi)) =
      subst (λ o. Steps w limit t k o s) (sym eb)
        (elim (Bool-cases (leb limit n)) [
          | inl full ↦ full_step w limit t start n k s q lo hi ec (leb→le limit n full)
          | inr room ↦ more_step w limit t start n k s q lo hi ec (ground arith)
        ])
