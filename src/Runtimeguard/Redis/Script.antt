-- ===== src/Runtimeguard/Redis/Script.antt =====
-- What the limiter's script does to one counter and leaves of the others.
use synapse_go.Base.{
  ℕ, suc, ◌+◌, ◌-◌, ◌≤◌, ◌<◌, ◌≡◌, ◌≢◌, none, some, [], ◌∷◌, arith, ℤ, pos, nat_eq, beq_refl,
  beq_false, Text, text_eq,
}
use synapse_go.Runtimeguard.Windows.{
  bumped, until, Windows, count_of, left_until, pttl_of, limiter_script,
}

module _ (W : Windows) where
  open W use {Store, cell, incr, pexpire}

  pub script_fresh :
      (k : Text) (w limit now : ℕ) (s : Store)
      → cell k now s ≡ none
      → limiter_script W k w (pos (suc limit)) now s
        ≡ (pos 1 ∷ pos 1 ∷ pos w ∷ [], pexpire k w now (incr k now s))
  unfolding limiter_script count_of pttl_of bumped
  script_fresh k w limit now s e = ground (arith, W.cell-incr k k now s, beq_refl {A = Text} k)

  pub script_full :
      (k : Text) (w limit n d now : ℕ) (s : Store)
      → cell k now s ≡ some (record { count = n; deadline = some d })
      → limit ≤ n
      → limiter_script W k w (pos limit) now s ≡ (pos 0 ∷ pos n ∷ pos (d - now) ∷ [], s)
  unfolding limiter_script count_of pttl_of left_until
  script_full k w limit n d now s e h = ground arith

  pub script_more :
      (k : Text) (w limit n d now : ℕ) (s : Store)
      → cell k now s ≡ some (record { count = suc n; deadline = some d })
      → suc n < limit
      → limiter_script W k w (pos limit) now s
        ≡ (pos 1 ∷ pos (suc (suc n)) ∷ pos (d - now) ∷ [], incr k now s)
  unfolding limiter_script count_of pttl_of left_until bumped
  script_more k w limit n d now s e h = ground (arith, W.cell-incr k k now s, beq_refl {A = Text} k)

  pub cell-fresh :
      (k : Text) (w now : ℕ) (s : Store)
      → 0 < w
      → cell k now s ≡ none
      → cell k now (pexpire k w now (incr k now s))
        ≡ some (record { count = 1; deadline = some (now + w) })
  unfolding bumped until
  cell-fresh k w now s p e = ground (
    arith,
    W.cell-pexpire k k w now (incr k now s) p,
    W.cell-incr k k now s,
    beq_refl {A = Text} k,
  )

  pub cell-more :
      (k : Text) (n d now : ℕ) (s : Store)
      → cell k now s ≡ some (record { count = n; deadline = some d })
      → cell k now (incr k now s) ≡ some (record { count = n + 1; deadline = some d })
  unfolding bumped
  cell-more k n d now s e = ground (arith, W.cell-incr k k now s, beq_refl {A = Text} k)

  -- The script writes the key of the call only.
  pub cell-script_ne :
      (k j : Text) (w now : ℕ) (limit : ℤ) (s : Store)
      → 0 < w
      → k ≢ j
      → cell j now (limiter_script W k w limit now s).1 ≡ cell j now s
  unfolding limiter_script
  cell-script_ne k j w now limit s p n = ground (
    arith,
    W.cell-pexpire k j w now s p,
    W.cell-pexpire k j w now (incr k now s) p,
    W.cell-incr k j now s,
    beq_false {A = Text} k j n,
  )
