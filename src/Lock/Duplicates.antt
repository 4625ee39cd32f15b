-- ===== src/Lock/Duplicates.antt =====
-- Which repeated requests idempotent/idempotent.go refuses.
use synapse_go.Base.{
  ◌+◌, ◌≤◌, ◌<◌, ◌≡◌, ap, ◌∙◌, inl, inr, true, false, none, some, ◌++◌, arith, Bool-cases, nat_eq,
  beq_refl, list_beq_iff, Text, text_eq, codes, is_empty, Time, Duration,
}
use synapse_go.Lock.Keys.{live, Keys, holds, unlock_script}
use synapse_go.Lock.Simple.{
  Unlock, unlock_by, passed, duplicate, tried, try_lock, unlock, as_duplicate, check, after_check,
  middleware,
}

module _ (R : Keys) where
  open R use {Store, lifetime, get, set_nx, del}

  abbrev full : Text → Text
  full key = codes "idem:" ++ key

  taken :
      (token key : Text) (ttl : Duration) (now : Time) (u : Unlock) (s s1 : Store)
      → check R token false key ttl now s ≡ (unlock_by u, s1)
      → ((set_nx (full key) token ttl now s).0 ≡ true)
        × (s1 ≡ (set_nx (full key) token ttl now s).1)
        × (u ≡ record { key = full key; token = token })
  unfolding check as_duplicate try_lock tried
  taken token key ttl now u s s1 h = elim (Bool-cases ((set_nx (full key) token ttl now s).0)) [
    | inl fresh ↦ ground (arith, fresh, h)
    | inr old ↦ absurd (ground (arith, old, h))
  ]

  running :
      (token key : Text) (ttl : Duration) (now t : Time) (u : Unlock) (s s1 : Store)
      → check R token false key ttl now s ≡ (unlock_by u, s1)
      → now ≤ t
      → t < now + lifetime ttl
      → get (full key) t s1 ≡ some token
  running token key ttl now t u s s1 h o live =
      let (fresh, e, _) = taken token key ttl now u s s1 h in
      ap (get (full key) t) e
      ∙ ground (
        arith,
        R.get-set_nx (full key) token (full key) ttl now t s o,
        R.set_nx_result (full key) token ttl now s,
        fresh,
        beq_refl {A = Text} (full key),
      )

  refused_while_held :
      (other v key : Text) (wait : Duration) (t : Time) (next : Store → Store) (s : Store)
      → is_empty key ≡ false
      → get (full key) t s ≡ some v
      → (middleware R other false key wait t t next s).0 ≡ duplicate
  unfolding middleware after_check check as_duplicate try_lock tried
  refused_while_held other v key wait t next s k h =
      ground (arith, k, h, R.set_nx_result (full key) other wait t s)

  passed_when_free :
      (other key : Text) (wait : Duration) (t : Time) (next : Store → Store) (s : Store)
      → is_empty key ≡ false
      → get (full key) t s ≡ none
      → (middleware R other false key wait t t next s).0 ≡ passed
  unfolding middleware after_check check as_duplicate try_lock tried
  passed_when_free other key wait t next s k h =
      ground (arith, k, h, R.set_nx_result (full key) other wait t s)

  ended :
      (token key : Text) (ttl : Duration) (now later : Time) (u : Unlock) (next : Store → Store)
      (s s1 : Store)
      → is_empty key ≡ false
      → check R token false key ttl now s ≡ (unlock_by u, s1)
      → get (full key) later (next s1) ≡ some token
      → (middleware R token false key ttl now later next s).1 ≡ del (full key) later (next s1)
  unfolding middleware after_check unlock unlock_script holds
  ended token key ttl now later u next s s1 k h kept =
      let (_, _, own) = taken token key ttl now u s s1 h in
      ground (arith, k, h, kept, own, list_beq_iff token token)

  -- The middleware refuses a request with the key of one that is running, in the lifetime of its
  -- lock, as a duplicate; and once the first has ended and given the lock back, it lets a request
  -- with the same key through to the handler again. The handler has left the key as it is.
  pub only_while_running :
      (token other key : Text) (ttl wait : Duration) (now t later again : Time) (u : Unlock)
      (next next' : Store → Store) (s s1 : Store)
      → is_empty key ≡ false
      → check R token false key ttl now s ≡ (unlock_by u, s1)
      → now ≤ t
      → t < now + lifetime ttl
      → get (full key) later (next s1) ≡ some token
      → later ≤ again
      → ((middleware R other false key wait t t next' s1).0 ≡ duplicate)
        × ((middleware R other false key wait again again next'
              (middleware R token false key ttl now later next s).1).0
            ≡ passed)
  only_while_running token other key ttl wait now t later again u next next' s s1 k h o live kept
        o' =
      let free =
        ap (get (full key) again) (ended token key ttl now later u next s s1 k h kept)
        ∙ ground (
          arith,
          R.get-del (full key) (full key) later again (next s1) o',
          beq_refl {A = Text} (full key),
        ) in
      (
        refused_while_held other token key wait t next' s1 k
            (running token key ttl now t u s s1 h o live),
        passed_when_free other key wait again next'
            (middleware R token false key ttl now later next s).1 k free,
      )
