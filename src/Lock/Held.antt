-- ===== src/Lock/Held.antt =====
-- Who holds a distributed lock while others act.
use synapse_go.Base.{
  ℕ, ◌≤◌, ◌<◌, ◌≡◌, sym, subst, ◌≢◌, ◌⊎◌, inl, inr, Bool, true, Option, none, some, List, [], ◌∷◌,
  ◌++◌, arith, Bool-cases, Option-cases, nat_eq, list_beq_iff, Text, text_eq, Time, Duration,
}
use synapse_go.Lock.Keys.{Keys, holds, unlock_script, renew_script}
use synapse_go.Lock.Distributed.{Config, Handle, milliseconds, acquire, release, renew}

-- What a client of the locker does, and when.
pub data Act : Type 0 where
  acquires : Config → Option Text → Bool → Text → Duration → Time → Act
  releases : Bool → Handle → Time → Act
  renews : Bool → Handle → Duration → Time → Act

unfoldable pub time_of : Act → Time
time_of (acquires c token fault key ttl now) = now
time_of (releases fault h now) = now
time_of (renews fault h ttl now) = now

-- An act of a client that does not have the token.
unfoldable pub Foreign : Text → Act → Type 0
Foreign token (acquires c t fault key ttl now) = Unit
Foreign token (releases fault h now) = h.token ≢ token
Foreign token (renews fault h ttl now) = h.token ≢ token

-- Acts of others in the order of their times, from `start` and before `end`.
unfoldable pub Others : Text → Time → Time → List Act → Type 0
Others token start end [] = Unit
Others token start end (a ∷ as') =
    Foreign token a × (start ≤ time_of a) × (time_of a < end) × Others token (time_of a) end as'

unfoldable pub last_time : Time → List Act → Time
last_time start [] = start
last_time start (a ∷ as') = last_time (time_of a) as'

module _ (R : Keys) where
  open R use {Store, lifetime, get, set_nx, del, pexpire}

  unfoldable pub act : Act → Store → Store
  act (acquires c token fault key ttl now) s = (acquire R c token fault key ttl now s).1
  act (releases fault h now) s = (release R fault h now s).2
  act (renews fault h ttl now) s = (renew R fault h ttl now s).1

  unfoldable pub acts : List Act → Store → Store
  acts [] s = s
  acts (a ∷ as') s = acts as' (act a s)

  -- From `start` and until `end` the key reads as the token.
  unfoldable pub Held : Text → Text → Time → Time → Store → Type 0
  Held key token start end s = (t : Time) → start ≤ t → t < end → get key t s ≡ some token

  set_nx-Held :
      (key token k v : Text) (ttl : Duration) (now end : Time) (s : Store)
      → now < end
      → Held key token now end s
      → Held key token now end (set_nx k v ttl now s).1
  unfolding Held
  set_nx-Held key token k v ttl now end s e h = λ t a b. ground (
    arith,
    R.get-set_nx k v key ttl now t s a,
    h now (omega arith) e,
    h t a b,
    list_beq_iff k key,
  )

  unlock-Held :
      (key token k v : Text) (now end : Time) (s : Store)
      → v ≢ token
      → now < end
      → Held key token now end s
      → Held key token now end (unlock_script R k v now s).1
  unfolding Held unlock_script holds
  unlock-Held key token k v now end s n e h = λ t a b. ground (
    arith,
    R.get-del k key now t s a,
    h now (omega arith) e,
    h t a b,
    list_beq_iff k key,
    list_beq_iff token v,
  )

  holder :
      (k v : Text) (now : Time) (s : Store) → holds R v (get k now s) ≡ true → get k now s ≡ some v
  unfolding holds
  holder k v now s h = elim (Option-cases (get k now s)) [
    | inl free ↦ absurd (ground arith)
    | inr (w, found) ↦ ground (arith, list_beq_iff w v)
  ]

  renew-Held :
      (key token k v : Text) (ms : ℕ) (now end : Time) (s : Store)
      → v ≢ token
      → now < end
      → Held key token now end s
      → Held key token now end (renew_script R k v ms now s).1
  unfolding Held renew_script
  renew-Held key token k v ms now end s n e h = λ t a b.
      elim (Bool-cases (holds R v (get k now s))) [
        | inl mine ↦ rw mine (
            ground (
              arith,
              R.get-pexpire k key v ms now t s a (holder k v now s mine),
              holder k v now s mine,
              h now (omega arith) e,
              h t a b,
              list_beq_iff k key,
            ))
        | inr other ↦ rw other (h t a b)
      ]

  no_token :
      (c : Config) (fault : Bool) (k : Text) (ttl : Duration) (now : Time) (s : Store)
      → (acquire R c none fault k ttl now s).1 ≡ s
  unfolding acquire
  no_token c fault k ttl now s = ground arith

  acquire_store :
      (c : Config) (v : Text) (fault : Bool) (k : Text) (ttl : Duration) (now : Time) (s : Store)
      → let t = (acquire R c (some v) fault k ttl now s).1 in
        (t ≡ s) ⊎ (t ≡ (set_nx (c.key_prefix ++ k) v ttl now s).1)
  unfolding acquire
  acquire_store c v fault k ttl now s = ground arith

  release_store :
      (fault : Bool) (k : Handle) (now : Time) (s : Store)
      → let t = (release R fault k now s).2 in
        (t ≡ s) ⊎ (t ≡ (unlock_script R k.full_key k.token now s).1)
  unfolding release unlock_script
  release_store fault k now s = ground arith

  renew_store :
      (fault : Bool) (k : Handle) (ttl : Duration) (now : Time) (s : Store)
      → let t = (renew R fault k ttl now s).1 in
        (t ≡ s) ⊎ (t ≡ (renew_script R k.full_key k.token (milliseconds ttl) now s).1)
  unfolding renew renew_script milliseconds
  renew_store fault k ttl now s = ground arith

  either_store :
      (key token : Text) (now end : Time) (s t u : Store)
      → (t ≡ s) ⊎ (t ≡ u)
      → Held key token now end s
      → Held key token now end u
      → Held key token now end t
  either_store key token now end s t u (inl p) hs hu = subst (Held key token now end) (sym p) hs
  either_store key token now end s t u (inr p) hs hu = subst (Held key token now end) (sym p) hu

  pub later_Held :
      (key token : Text) (start now end : Time) (s : Store)
      → start ≤ now
      → Held key token start end s
      → Held key token now end s
  unfolding Held
  later_Held key token start now end s o h = λ t a b. h t (omega arith) b

  act-Held :
      (key token : Text) (a : Act) (end : Time) (s : Store)
      → Foreign token a
      → time_of a < end
      → Held key token (time_of a) end s
      → Held key token (time_of a) end (act a s)
  unfolding act time_of Foreign
  act-Held key token (acquires c none fault k ttl now) end s f e h =
      subst (Held key token now end) (sym (no_token c fault k ttl now s)) h
  act-Held key token (acquires c (some v) fault k ttl now) end s f e h =
      either_store key token now end s _ _ (acquire_store c v fault k ttl now s) h
        (set_nx-Held key token (c.key_prefix ++ k) v ttl now end s e h)
  act-Held key token (releases fault k now) end s f e h =
      either_store key token now end s _ _ (release_store fault k now s) h
        (unlock-Held key token k.full_key k.token now end s f e h)
  act-Held key token (renews fault k ttl now) end s f e h =
      either_store key token now end s _ _ (renew_store fault k ttl now s) h
        (renew-Held key token k.full_key k.token (milliseconds ttl) now end s f e h)

  pub acts-Held :
      (key token : Text) (start end : Time) (as' : List Act) (s : Store)
      → Others token start end as'
      → Held key token start end s
      → Held key token (last_time start as') end (acts as' s)
  unfolding acts Others last_time
  acts-Held key token start end [] s o h = h
  acts-Held key token start end (a ∷ as') s (f, from, before, rest) h =
      acts-Held key token (time_of a) end as' (act a s) rest
        (act-Held key token a end s f before (later_Held key token start (time_of a) end s from h))
