-- ===== src/Cache/Refinement.antt =====
-- The cache does what the list of recent entries does, call by call.
use synapse_go.Base.{
  ℕ, suc, ◌≤◌, ◌≡◌, refl, sym, ap, ap₂, subst, ◌∙◌, inl, inr, Option, none, some, List, [], ◌∷◌,
  arith, if◌then◌else◌, Bool-cases, length, pos, nonpos, Eq, nat_eq, lookup, delete, text_eq, Time,
  Duration,
}
use synapse_go.Cache.Lru.{
  Element, Lru, expiry, new, remove_id, is_expired, purge, remove_element, remove_found, read,
  get_at, get, set_at, set, delete_at, delete_key,
}
use synapse_go.Cache.Elements.{
  find_key, find_id-found, remove_id-found, length-remove_id, remove_key-none, moved,
  moved-write_id,
}
use synapse_go.Cache.Recency.{
  Recent, spent, recall_at, recall, remember, entries, entry_of, lookup-entries, delete-entries,
  length-entries, take_all,
}
use synapse_go.Cache.Tied.{
  id_of, IsTied, remove_element-IsTied, entries-remove_element, refront, refront-IsTied,
  entries-refront,
}
use synapse_go.Cache.Writes.{added}

pub data Call {ℓ κ} (K : Type ℓ) (V : Type κ) : Type (ℓ ⊔ κ) where
  gets : Time → K → Call K V
  sets : Time → K → V → Call K V
  deletes : K → Call K V
  purges : Call K V

module _ {ℓ κ} {K : Type ℓ} {V : Type κ} ⦃e : Eq K⦄ where
  -- A call of the cache, and what it promises.
  unfoldable pub step : Call K V → Lru K V → Option V × Lru K V
  step (gets now k) c = get now k c
  step (sets now k v) c = (none, set now k v c)
  step (deletes k) c = (none, delete_key k c)
  step purges c = (none, purge c)

  unfoldable pub promise : ℕ → Duration → Call K V → Recent K V → Option V × Recent K V
  promise n ttl (gets now k) l = recall now k l
  promise n ttl (sets now k v) l = (none, remember n k v (expiry ttl now) l)
  promise n ttl (deletes k) l = (none, delete k l)
  promise n ttl purges l = (none, [])

  -- A call has kept its promise.
  abbrev Kept : ℕ → Duration → Option V × Lru K V → Option V × Recent K V → Type (ℓ ⊔ κ)
  Kept n ttl r p = (r.0 ≡ p.0) × (entries r.1.ll ≡ p.1) × IsTied n r.1 × (r.1.ttl ≡ ttl)

  get_live :
      (n : ℕ) (c : Lru K V) (now : Time) (k : K) (x : Element K V)
      → IsTied n c
      → find_key k c.ll ≡ some x
      → Kept n c.ttl
          (read now x.id (some x) c)
          (recall_at now k (some (x.value, x.expires_at)) (entries c.ll))
  unfolding read recall_at is_expired
  get_live n c now k x t f = elim (Bool-cases (spent now x.expires_at)) [
    | inl old ↦ rw old (
      refl,
      entries-remove_element n c k x t f,
      remove_element-IsTied n c k x t f,
      unfold remove_element in refl,
    )
    | inr young ↦ rw young (
      refl,
      ap entries (moved k c.ll x t.apart f) ∙ unfold refront in entries-refront n c k x x t f refl,
      subst (λ z. IsTied n (record c { ll = z })) (sym (moved k c.ll x t.apart f))
          (unfold refront in refront-IsTied n c k x x t f refl refl),
      refl,
    )
  ]

  -- What the guard, the map and the pointer of a call find.
  get_found :
      (n : ℕ) (c : Lru K V) (now : Time) (k : K) (o : Option (Element K V))
      → IsTied n c
      → find_key k c.ll ≡ o
      → get now k c ≡ get_at now (id_of o) c
  unfolding get
  get_found n c now k o t f =
      ap (λ z. if nonpos z then (none, c) else get_at now (lookup k c.items) c) t.capacity
      ∙ ap (λ i. get_at now i c) (t.tied k ∙ ap id_of f)

  recall_found :
      (c : Lru K V) (now : Time) (k : K) (o : Option (Element K V))
      → find_key k c.ll ≡ o
      → recall now k (entries c.ll) ≡ recall_at now k (entry_of o) (entries c.ll)
  unfolding recall
  recall_found c now k o f =
      ap (λ o. recall_at now k o (entries c.ll)) (lookup-entries k c.ll ∙ ap entry_of f)

  transport_Kept :
      (n : ℕ) (ttl : Duration) (r r' : Option V × Lru K V) (p p' : Option V × Recent K V)
      → r ≡ r'
      → p ≡ p'
      → Kept n ttl r' p'
      → Kept n ttl r p
  transport_Kept n ttl r r' p p' a b h =
      subst (λ x. Kept n ttl x p) (sym a) (subst (λ x. Kept n ttl r' x) (sym b) h)

  get-Kept :
      (n : ℕ) (c : Lru K V) (now : Time) (k : K) (o : Option (Element K V))
      → IsTied n c
      → find_key k c.ll ≡ o
      → Kept n c.ttl (get now k c) (recall now k (entries c.ll))
  unfolding id_of entry_of get_at recall_at
  get-Kept n c now k none t f =
      transport_Kept n c.ttl _ (none, c) _ (none, entries c.ll) (get_found n c now k none t f)
        (recall_found c now k none f) ((refl, refl, t, refl))
  get-Kept n c now k (some x) t f =
      transport_Kept n c.ttl _ (read now x.id (some x) c) _ _
        (get_found n c now k (some x) t f
          ∙ ap (λ y. read now x.id y c) (find_id-found k c.ll x t.apart f))
        (recall_found c now k (some x) f) (get_live n c now k x t f)

  delete_found :
      (n : ℕ) (c : Lru K V) (k : K) (o : Option (Element K V))
      → IsTied n c
      → find_key k c.ll ≡ o
      → delete_key k c ≡ remove_found o c
  unfolding delete_key delete_at id_of
  delete_found n c k none t f =
      ap (λ z. if nonpos z then c else delete_at (lookup k c.items) c) t.capacity
      ∙ ap (λ i. delete_at i c) (t.tied k ∙ ap id_of f)
  delete_found n c k (some x) t f =
      ap (λ z. if nonpos z then c else delete_at (lookup k c.items) c) t.capacity
      ∙ ap (λ i. delete_at i c) (t.tied k ∙ ap id_of f)
      ∙ ap (λ y. remove_found y c) (find_id-found k c.ll x t.apart f)

  delete-Kept :
      (n : ℕ) (c : Lru K V) (k : K) (o : Option (Element K V))
      → IsTied n c
      → find_key k c.ll ≡ o
      → Kept n c.ttl (none, delete_key k c) (none, delete k (entries c.ll))
  unfolding remove_found
  delete-Kept n c k none t f =
      subst (λ z. Kept n c.ttl (none, z) (none, delete k (entries c.ll)))
        (sym (delete_found n c k none t f))
        (refl, sym (delete-entries k c.ll ∙ ap entries (remove_key-none k c.ll f)), t, refl)
  delete-Kept n c k (some x) t f =
      subst (λ z. Kept n c.ttl (none, z) (none, delete k (entries c.ll)))
        (sym (delete_found n c k (some x) t f))
        (
          refl,
          entries-remove_element n c k x t f,
          remove_element-IsTied n c k x t f,
          unfold remove_element in refl,
        )

  purge-IsTied : (n : ℕ) (c : Lru K V) → IsTied n c → IsTied n (purge c)
  unfolding purge find_key id_of lookup
  purge-IsTied n c t = record {
    capacity = t.capacity;
    fresh = tt;
    apart = tt;
    tied = λ k. refl;
    within = omega arith;
  }

  set_found :
      (n : ℕ) (c : Lru K V) (now : Time) (k : K) (v : V) (o : Option (Element K V))
      → IsTied n c
      → find_key k c.ll ≡ o
      → set now k v c ≡ set_at (expiry c.ttl now) (id_of o) k v c
  unfolding set
  set_found n c now k v o t f =
      ap (λ z. if nonpos z then c else set_at (expiry c.ttl now) (lookup k c.items) k v c)
        t.capacity
      ∙ ap (λ i. set_at (expiry c.ttl now) i k v c) (t.tied k ∙ ap id_of f)

  shorter :
      (n : ℕ) (c : Lru K V) (k : K) (x : Element K V) (v : V) (t : Time)
      → IsTied n c
      → find_key k c.ll ≡ some x
      → length ((k, (v, t)) ∷ delete k (entries c.ll)) ≤ suc n
  shorter n c k x v t s f =
      let same = delete-entries k c.ll ∙ ap entries (sym (remove_id-found k c.ll x s.apart f)) in
      omega (
        arith,
        ap length same,
        length-entries (remove_id x.id c.ll),
        length-remove_id k c.ll x s.apart f,
        s.within,
      )

  set-Kept :
      (n : ℕ) (c : Lru K V) (now : Time) (k : K) (v : V) (o : Option (Element K V))
      → IsTied n c
      → find_key k c.ll ≡ o
      → Kept n c.ttl
          (none, set now k v c)
          (none, remember (suc n) k v (expiry c.ttl now) (entries c.ll))
  unfolding id_of set_at refront
  set-Kept n c now k v none t f =
      let (a, b, d) = added n c k v (expiry c.ttl now) t f in
      subst
        (λ z. Kept n c.ttl (none, z) (none, remember (suc n) k v (expiry c.ttl now) (entries c.ll)))
        (sym (set_found n c now k v none t f)) (refl, a, b, d)
  set-Kept n c now k v (some x) t f =
      let u = expiry c.ttl now in
      let y : Element K V = record x { value = v; expires_at = u } in
      subst (λ z. Kept n c.ttl (none, z) (none, remember (suc n) k v u (entries c.ll)))
        (sym (
          set_found n c now k v (some x) t f
          ∙ ap (λ (z : List (Element K V)). record c { ll = z })
              (moved-write_id k v u c.ll x t.apart f)))
        (
          refl,
          entries-refront n c k x y t f refl
              ∙ sym (
                  unfold remember in
                  take_all (suc n) ((k, (v, u)) ∷ delete k (entries c.ll))
                    (shorter n c k x v u t f)),
          refront-IsTied n c k x y t f refl refl,
          refl,
        )

  step-Kept :
      (n : ℕ) (call : Call K V) (c : Lru K V)
      → IsTied n c
      → Kept n c.ttl (step call c) (promise (suc n) c.ttl call (entries c.ll))
  unfolding step promise
  step-Kept n (gets now k) c t = get-Kept n c now k (find_key k c.ll) t refl
  step-Kept n (sets now k v) c t = set-Kept n c now k v (find_key k c.ll) t refl
  step-Kept n (deletes k) c t = delete-Kept n c k (find_key k c.ll) t refl
  step-Kept n purges c t =
      unfold purge entries in (refl, refl, unfold purge in purge-IsTied n c t, refl)

  -- The answers to a list of calls, and the cache that they leave.
  unfoldable pub run : List (Call K V) → Lru K V → List (Option V) × Lru K V
  run [] c = ([], c)
  run (call ∷ calls) c = let (o, c') = step call c in let (os, c'') = run calls c' in (o ∷ os, c'')

  unfoldable pub promises :
      ℕ → Duration → List (Call K V) → Recent K V → List (Option V) × Recent K V
  promises n ttl [] l = ([], l)
  promises n ttl (call ∷ calls) l =
      let (o, l') = promise n ttl call l in let (os, l'') = promises n ttl calls l' in (o ∷ os, l'')

  run-Kept :
      (n : ℕ) (ttl : Duration) (calls : List (Call K V)) (c : Lru K V)
      → IsTied n c
      → c.ttl ≡ ttl
      → ((run calls c).0 ≡ (promises (suc n) ttl calls (entries c.ll)).0)
        × (entries (run calls c).1.ll ≡ (promises (suc n) ttl calls (entries c.ll)).1)
        × IsTied n (run calls c).1
  unfolding run promises
  run-Kept n ttl [] c t same = (refl, refl, t)
  run-Kept n ttl (call ∷ calls) c t same =
      let (a, b, t', same') = step-Kept n call c t in
      let l = entries c.ll in
      let at_ttl = λ (z : Duration). promise (suc n) z call l in
      let (os, rest, tied) = run-Kept n ttl calls (step call c).1 t' (same' ∙ same) in
      let next = b ∙ ap (λ z. (at_ttl z).1) same in
      (
        ap₂ ◌∷◌ (a ∙ ap (λ z. (at_ttl z).0) same)
            (os ∙ ap (λ z. (promises (suc n) ttl calls z).0) next),
        rest ∙ ap (λ z. (promises (suc n) ttl calls z).1) next,
        tied,
      )

  new-IsTied : (n : ℕ) (ttl : Duration) → IsTied {K = K} {V = V} n (new (pos (suc n)) ttl)
  unfolding new find_key id_of lookup
  new-IsTied n ttl = record {
    capacity = refl;
    fresh = tt;
    apart = tt;
    tied = λ k. refl;
    within = omega arith;
  }

  -- A cache of positive capacity answers every list of calls as a list of recent entries does:
  -- a key is recalled with its last value until that has expired, was deleted or purged, or has
  -- been pushed out by as many keys that were used after it as there is room for; and what the
  -- cache holds is that list.
  pub lru_refines :
      (n : ℕ) (ttl : Duration) (calls : List (Call K V))
      → let (answers, c) = run calls (new (pos (suc n)) ttl) in
        let (promised, l) = promises (suc n) ttl calls [] in
        (answers ≡ promised) × (entries c.ll ≡ l)
  unfolding entries
  lru_refines n ttl calls =
      let (a, b, _) =
        run-Kept n ttl calls (new (pos (suc n)) ttl) (new-IsTied n ttl) (unfold new in refl) in
      (unfold new in a, unfold new in b)

  -- After every list of calls the map of a cache of positive capacity points to exactly the
  -- elements of its list, by their keys; keys and pointers are distinct, and the list is no longer
  -- than the capacity.
  pub run-new-IsTied :
      (n : ℕ) (ttl : Duration) (calls : List (Call K V))
      → IsTied n (run calls (new (pos (suc n)) ttl)).1
  run-new-IsTied n ttl calls =
      let (_, _, t) =
        run-Kept n ttl calls (new (pos (suc n)) ttl) (new-IsTied n ttl) (unfold new in refl) in
      t
