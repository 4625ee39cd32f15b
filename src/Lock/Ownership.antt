-- ===== src/Lock/Ownership.antt =====
-- A lock that is granted, kept and given back.
use synapse_go.Base.{
  ℕ, suc, ◌+◌, ◌≤◌, ◌<◌, ◌≡◌, refl, sym, ap, subst, ◌∙◌, ◌≢◌, true, false, Option, none, some, List,
  ◌++◌, arith, pos, nat_eq, beq_refl, list_beq_iff, Text, text_eq, is_empty, Time, Duration,
}
use synapse_go.Lock.Keys.{Keys, holds, unlock_script}
use synapse_go.Lock.Distributed.{
  Err, locked, not_owner, already_released, Config, Handle, handle, refused, acquire, release,
}
use synapse_go.Lock.Held.{Act, Others, last_time, acts, Held, later_Held, acts-Held}

module _ (R : Keys) where
  open R use {Store, lifetime, get, set_nx, del}

  acquire-inv :
      (c : Config) (token k : Text) (ttl : Duration) (now : Time) (h : Handle) (s s' : Store)
      → acquire R c (some token) false k ttl now s ≡ (handle h, s')
      → ((set_nx (c.key_prefix ++ k) token ttl now s).0 ≡ true)
        × (s' ≡ (set_nx (c.key_prefix ++ k) token ttl now s).1)
        × (h ≡ record { full_key = c.key_prefix ++ k; key = k; token = token; released = false })
  unfolding acquire
  acquire-inv c token k ttl now h s s' ok = ground arith

  acquired_Held :
      (c : Config) (token k : Text) (ttl : Duration) (now : Time) (h : Handle) (s s' : Store)
      → acquire R c (some token) false k ttl now s ≡ (handle h, s')
      → Held R (c.key_prefix ++ k) token now (now + lifetime ttl) s'
  unfolding acquire Held
  acquired_Held c token k ttl now h s s' ok = λ t a b.
      let full = c.key_prefix ++ k in
      let (fresh, e, _) = acquire-inv c token k ttl now h s s' ok in
      ap (get full t) e
      ∙ ground (
        arith,
        R.get-set_nx full token full ttl now t s a,
        R.set_nx_result full token ttl now s,
        fresh,
        beq_refl {A = Text} full,
      )

  taken_refused :
      (c : Config) (token other k : Text) (ttl : ℕ) (t end : Time) (s : Store)
      → is_empty k ≡ false
      → t < end
      → Held R (c.key_prefix ++ k) token t end s
      → (acquire R c (some other) false k (pos (suc ttl)) t s).0 ≡ refused locked
  unfolding acquire Held
  taken_refused c token other k ttl t end s ne b h =
      let full = c.key_prefix ++ k in
      ground (arith, R.set_nx_result full other (pos (suc ttl)) t s, h t (omega arith) b)

  -- Mutual exclusion. Once a locker has been granted a key under a token, and whatever clients
  -- without the token do to any key, in the order of their times and before the lifetime of the
  -- grant is over, a further request for the key before that time is refused as locked.
  pub mutual_exclusion :
      (c : Config) (token other k : Text) (ttl wait : ℕ) (now t : Time) (h : Handle)
      (as' : List Act) (s s' : Store)
      → is_empty k ≡ false
      → acquire R c (some token) false k (pos ttl) now s ≡ (handle h, s')
      → Others token now (now + lifetime (pos ttl)) as'
      → last_time now as' ≤ t
      → t < now + lifetime (pos ttl)
      → (acquire R c (some other) false k (pos (suc wait)) t (acts R as' s')).0 ≡ refused locked
  mutual_exclusion c token other k ttl wait now t h as' s s' ne ok others after_all before =
      let full = c.key_prefix ++ k in
      let end = now + lifetime (pos ttl) in
      taken_refused c token other k wait t end (acts R as' s') ne before (
        later_Held R full token (last_time now as') t end (acts R as' s') after_all (
          acts-Held R full token now end as' s' others
            (acquired_Held c token k (pos ttl) now h s s' ok)))

  released_state :
      (full k token : Text) (t : Time) (u : Store)
      → get full t u ≡ some token
      → let h : Handle = record { full_key = full; key = k; token = token; released = false } in
        release R false h t u ≡ (none, record h { released = true }, del full t u)
  unfolding release unlock_script holds
  released_state full k token t u found = ground (arith, list_beq_iff token token)

  freed :
      (c : Config) (other k : Text) (wait : ℕ) (t now : Time) (u : Store)
      → is_empty k ≡ false
      → t ≤ now
      → (acquire R c (some other) false k (pos (suc wait)) now (del (c.key_prefix ++ k) t u)).0
        ≡ handle (record { full_key = c.key_prefix ++ k; key = k; token = other; released = false })
  unfolding acquire
  freed c other k wait t now u ne o =
      let full = c.key_prefix ++ k in
      ground (
        arith,
        R.set_nx_result full other (pos (suc wait)) now (del full t u),
        R.get-del full full t now u o,
        beq_refl {A = Text} full,
      )

  spent :
      (h : Handle) (t : Time) (u : Store)
      → h.released ≡ true
      → (release R false h t u).0 ≡ some already_released
  unfolding release
  spent h t u e = ground arith

  -- The owner of a live lock gives it back: the release succeeds, the next request for the key is
  -- granted, and the handle is spent, so that a second release is refused. Others may have acted in
  -- between.
  pub release_hands_over :
      (c : Config) (token other k : Text) (ttl wait : ℕ) (now t later : Time) (h : Handle)
      (as' : List Act) (s s' : Store)
      → is_empty k ≡ false
      → acquire R c (some token) false k (pos ttl) now s ≡ (handle h, s')
      → Others token now (now + lifetime (pos ttl)) as'
      → last_time now as' ≤ t
      → t < now + lifetime (pos ttl)
      → t ≤ later
      → let (e, h', u) = release R false h t (acts R as' s') in
        (e ≡ none)
        × ((acquire R c (some other) false k (pos (suc wait)) later u).0
            ≡ handle
                (record { full_key = c.key_prefix ++ k; key = k; token = other; released = false }))
        × ((release R false h' later u).0 ≡ some already_released)
  unfolding Held
  release_hands_over c token other k ttl wait now t later h as' s s' ne ok others after_all before
        o =
      let full = c.key_prefix ++ k in
      let end = now + lifetime (pos ttl) in
      let u = acts R as' s' in
      let fresh : Handle = record { full_key = full; key = k; token = token; released = false } in
      let (_, _, same) = acquire-inv c token k (pos ttl) now h s s' ok in
      let held =
        acts-Held R full token now end as' s' others
          (acquired_Held c token k (pos ttl) now h s s' ok) in
      let done =
        ap (λ x. release R false x t u) same
        ∙ released_state full k token t u (held t after_all before) in
      subst
        (λ (x : Option Err × Handle × Store).
          (x.0 ≡ none)
          × ((acquire R c (some other) false k (pos (suc wait)) later x.2).0
              ≡ handle (record { full_key = full; key = k; token = other; released = false }))
          × ((release R false x.1 later x.2).0 ≡ some already_released))
        (sym done)
        (
          refl,
          freed c other k wait t later u ne o,
          spent (record fresh { released = true }) later (del full t u) refl,
        )

  -- The owner that comes too late does not take the lock from the client that holds it now: the
  -- release is refused and the store unchanged.
  late_release_refused :
      (h : Handle) (other : Text) (t : Time) (s : Store)
      → h.released ≡ false
      → get h.full_key t s ≡ some other
      → other ≢ h.token
      → ((release R false h t s).0 ≡ some not_owner) × ((release R false h t s).2 ≡ s)
  unfolding release unlock_script holds
  late_release_refused h other t s fresh found differ = ground (arith, list_beq_iff other h.token)
