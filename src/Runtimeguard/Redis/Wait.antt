-- ===== src/Runtimeguard/Redis/Wait.antt =====
-- How long a refused caller of the limiter over Redis has to wait.
use synapse_go.Base.{
  ℕ, suc, ◌+◌, ◌≤◌, ◌<◌, ◌≡◌, refl, ap, ◌∙◌, inl, inr, true, false, Option, none, some, arith,
  Option-cases, ℤ, pos, pos_part, nat_eq, beq_refl, Text, text_eq, is_empty, trim_space,
}
use synapse_go.Runtimeguard.Limiter.{Decision}
use synapse_go.Runtimeguard.Windows.{
  Cell, is_over, lapse, until, Windows, count_of, left_until, pttl_of, limiter_script,
}
use synapse_go.Runtimeguard.Redis.{
  Err, of_millis, denied, redis_limiter_decision, decide, RedisLimiter, limiter_key, allow_redis,
}
use synapse_go.Runtimeguard.Redis.Script.{script_fresh, script_full}
use synapse_go.Runtimeguard.Redis.Calls.{ms, valid_allow}

module _ (W : Windows) (parse_int : Text → Option ℤ) (l : RedisLimiter) where
  open W use {Store, cell, incr, pexpire}

  abbrev call : ℕ → Text → ℕ → ℕ → Store → (Decision × Option Err) × Store
  call now raw limit w s = allow_redis parse_int W false now raw (pos (suc limit)) (pos (ms w)) l s

  abbrev key_of : Text → Text
  key_of raw = limiter_key l (trim_space raw)

  fresh_allowed :
      (raw : Text) (limit w t : ℕ) (s : Store)
      → l.has_store ≡ true
      → is_empty (trim_space raw) ≡ false
      → 0 < w
      → cell (key_of raw) t s ≡ none
      → (call t raw limit w s).0.0.allowed ≡ true
  unfolding decide redis_limiter_decision
  fresh_allowed raw limit w t s has ne p e =
      let k = key_of raw in
      ap (λ r. r.0.0.allowed)
        (valid_allow W parse_int l w limit t raw s has ne p
          ∙ ap (λ r. (decide r.0 (pos (suc limit)) (pos (ms w)), r.1))
              (script_fresh W k w limit t s e))

  alive :
      (k : Text) (n d now : ℕ) (s : Store)
      → cell k now s ≡ some (record { count = n; deadline = some d })
      → now < d
  unfolding lapse is_over
  alive k n d now s e = ground (arith, W.cell_later k now now s)

  refused_full :
      (raw : Text) (limit w now : ℕ) (s : Store)
      → l.has_store ≡ true
      → is_empty (trim_space raw) ≡ false
      → 0 < w
      → (call now raw limit w s).0.0.allowed ≡ false
      → suc limit ≤ count_of (cell (key_of raw) now s)
  unfolding limiter_script decide redis_limiter_decision denied
  refused_full raw limit w now s has ne p refused =
      ground (arith, valid_allow W parse_int l w limit now raw s has ne p)

  ending :
      (raw : Text) (limit w n d now t : ℕ) (s : Store)
      → l.has_store ≡ true
      → is_empty (trim_space raw) ≡ false
      → 0 < w
      → cell (key_of raw) now s ≡ some (record { count = n; deadline = some d })
      → limit < n
      → let (answer, s') = call now raw limit w s in
        ms now + pos_part answer.0.retry_after ≤ ms t → cell (key_of raw) t s' ≡ none
  unfolding decide redis_limiter_decision denied of_millis lapse is_over
  ending raw limit w n d now t s has ne p e full wait =
      let k = key_of raw in
      ground (
        arith,
        valid_allow W parse_int l w limit now raw s has ne p,
        script_full W k w (suc limit) n d now s e (omega arith),
        alive k n d now s e,
        W.cell_later k now t s,
      )

  healing :
      (raw : Text) (limit w n now t : ℕ) (s : Store)
      → l.has_store ≡ true
      → is_empty (trim_space raw) ≡ false
      → 0 < w
      → cell (key_of raw) now s ≡ some (record { count = n; deadline = none })
      → limit < n
      → let (answer, s') = call now raw limit w s in
        ms now + pos_part answer.0.retry_after ≤ ms t → cell (key_of raw) t s' ≡ none
  unfolding limiter_script count_of pttl_of left_until decide redis_limiter_decision denied
      of_millis lapse is_over until
  healing raw limit w n now t s has ne p e full wait =
      let k = key_of raw in
      ground (
        arith,
        valid_allow W parse_int l w limit now raw s has ne p,
        W.cell-pexpire k k w now s p,
        beq_refl {A = Text} k,
        W.cell_later k now t (pexpire k w now s),
      )

  ended :
      (raw : Text) (limit w now t : ℕ) (c : Option Cell) (s : Store)
      → l.has_store ≡ true
      → is_empty (trim_space raw) ≡ false
      → 0 < w
      → cell (key_of raw) now s ≡ c
      → suc limit ≤ count_of c
      → let (answer, s') = call now raw limit w s in
        ms now + pos_part answer.0.retry_after ≤ ms t → cell (key_of raw) t s' ≡ none
  unfolding count_of
  ended raw limit w now t none s has ne p e full wait = absurd (omega arith)
  ended raw limit w now t (some c) s has ne p e full wait = elim (Option-cases c.deadline) [
    | inl forever ↦ healing raw limit w c.count now t s has ne p (e ∙ ground (arith)) full wait
    | inr (d, until_d) ↦
        ending raw limit w c.count d now t s has ne p (e ∙ ground (arith)) full wait
  ]

  -- A refusal says how long to wait, whatever stood under the key, also a count that never expired:
  -- a call of the same caller later than that, by a millisecond of the clock of Redis or more, with
  -- no call between, is let through. At the very millisecond of the deadline nothing is said, since
  -- Redis may still hold the key then. The key is not blank, the limit is positive, the window is a
  -- positive whole number of milliseconds, and Redis answers both calls.
  pub wait_enough :
      (raw : Text) (limit w now t : ℕ) (s : Store)
      → l.has_store ≡ true
      → is_empty (trim_space raw) ≡ false
      → 0 < w
      → let (answer, s') = call now raw limit w s in
        answer.0.allowed ≡ false
        → ms now + pos_part answer.0.retry_after < ms t
        → (call t raw limit w s').0.0.allowed ≡ true
  wait_enough raw limit w now t s has ne p refused wait =
      fresh_allowed raw limit w t (call now raw limit w s).1 has ne p (
        ended raw limit w now t (cell (key_of raw) now s) s has ne p refl
          (refused_full raw limit w now s has ne p refused) (ground arith))
