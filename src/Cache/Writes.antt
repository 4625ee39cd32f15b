-- ===== src/Cache/Writes.antt =====
-- A value that is set stands at the front, and what the capacity leaves no room for at the back goes.
use synapse_go.Base.{
  ℕ, suc, ◌+◌, ◌≤◌, ◌<◌, ◌≡◌, refl, sym, ap, subst, ◌∙◌, inl, inr, false, none, some, List, [], ◌∷◌,
  arith, leb, if◌then◌else◌, leb→le, Bool-cases, length, take, All, pos, ltb_ℤ, Eq, nat_eq, delete,
  lookup-insert, text_eq, Time,
}
use synapse_go.Cache.Lru.{Element, Lru, back, remove_element, remove_found, push, evict}
use synapse_go.Cache.Elements.{
  find_key, Unlike, Apart, length-remove_id, remove_key-none, All-find_key-none, find_key-back,
  back-some,
}
use synapse_go.Cache.Recency.{
  remember, entries, delete-entries, length-entries, entries-drop_back, take_all,
}
use synapse_go.Cache.Tied.{id_of, IsTied, remove_element-IsTied}

module _ {ℓ κ} {K : Type ℓ} {V : Type κ} ⦃e : Eq K⦄ where
  abbrev newest : K → V → Time → Lru K V → Element K V
  newest k v t c = record { id = c.next_id; key = k; value = v; expires_at = t }

  push-fresh :
      (m i : ℕ) (k : K) (v : V) (t : Time) (xs : List (Element K V))
      → m ≡ i
      → All (λ (x : Element K V). x.id < i) xs
      → All (λ y. e.beq y.key k ≡ false) xs
      → All (Unlike (record { id = m; key = k; value = v; expires_at = t })) xs
        × All (λ (x : Element K V). x.id < i + 1) xs
  push-fresh m i k v t [] p h g = (tt, tt)
  push-fresh m i k v t (x ∷ xs) p h g =
      let (a, b) = push-fresh m i k v t xs p h.1 g.1 in
      (((ground (arith, h.0), g.0), a), (ground (arith, h.0), b))

  -- The cache after a push, which may hold one element too many.
  push-Apart :
      (n : ℕ) (c : Lru K V) (k : K) (v : V) (t : Time)
      → IsTied n c
      → find_key k c.ll ≡ none
      → Apart (push k v t c).ll
  unfolding push
  push-Apart n c k v t s f = (
    (push-fresh c.next_id c.next_id k v t c.ll refl s.fresh (All-find_key-none k c.ll f)).0,
    s.apart,
  )

  push-IsTied :
      (n : ℕ) (c : Lru K V) (k : K) (v : V) (t : Time)
      → IsTied n c
      → find_key k c.ll ≡ none
      → (m : ℕ) → length c.ll < suc m
      → IsTied m (record (push k v t c) { capacity = pos (suc m) })
  unfolding push id_of find_key
  push-IsTied n c k v t s f m room = record {
    capacity = refl;
    fresh = (
      omega arith,
      (push-fresh c.next_id c.next_id k v t c.ll refl s.fresh (All-find_key-none k c.ll f)).1,
    );
    apart = push-Apart n c k v t s f;
    tied = λ j. ground (arith, lookup-insert k j c.next_id c.items, s.tied j, e.beq_iff k j);
    within = omega arith;
  }

  entries-push :
      (n : ℕ) (c : Lru K V) (k : K) (v : V) (t : Time)
      → find_key k c.ll ≡ none
      → entries (push k v t c).ll ≡ (k, (v, t)) ∷ delete k (entries c.ll)
  unfolding push entries
  entries-push n c k v t f =
      ap (◌∷◌ (k, (v, t))) (sym (delete-entries k c.ll ∙ ap entries (remove_key-none k c.ll f)))

  shrunk :
      (n : ℕ) (p : Lru K V) (y : Element K V)
      → p.capacity ≡ pos (suc n)
      → length p.ll ≡ suc (suc n)
      → IsTied (suc n) (record p { capacity = pos (suc (suc n)) })
      → find_key y.key p.ll ≡ some y
      → IsTied n (remove_element y p)
  unfolding remove_element
  shrunk n p y bound full s f =
      let r =
        remove_element-IsTied (suc n) (record p { capacity = pos (suc (suc n)) }) y.key y s f in
      record {
        capacity = bound;
        fresh = r.fresh;
        apart = r.apart;
        tied = r.tied;
        within = omega (arith, length-remove_id y.key p.ll y s.apart f);
      }

  fits : (n : ℕ) (p : Lru K V) → p.capacity ≡ pos (suc n) → length p.ll ≤ suc n → evict p ≡ p
  unfolding evict
  fits n p bound room =
      ap (λ z. if ltb_ℤ z (pos (length p.ll)) then remove_found (back p.ll) p else p) bound
      ∙ ground arith

  overflows :
      (n : ℕ) (p : Lru K V) (y : Element K V)
      → p.capacity ≡ pos (suc n)
      → length p.ll ≡ suc (suc n)
      → back p.ll ≡ some y
      → evict p ≡ remove_element y p
  unfolding evict remove_found
  overflows n p y bound full last =
      ap (λ z. if ltb_ℤ z (pos (length p.ll)) then remove_found (back p.ll) p else p) bound
      ∙ ground (arith, full, last)

  pub added :
      (n : ℕ) (c : Lru K V) (k : K) (v : V) (t : Time)
      → IsTied n c
      → find_key k c.ll ≡ none
      → (entries (evict (push k v t c)).ll ≡ remember (suc n) k v t (entries c.ll))
        × IsTied n (evict (push k v t c))
        × ((evict (push k v t c)).ttl ≡ c.ttl)
  unfolding remember
  added n c k v t s f = elim (Bool-cases (leb (length c.ll) n)) [
    | inl room ↦
        let p = push k v t c in
        let bound : p.capacity ≡ pos (suc n) = unfold push in s.capacity in
        let few : length p.ll ≤ suc n = unfold push in omega (arith, leb→le (length c.ll) n room) in
        let same = fits n p bound few in
        subst
          (λ (q : Lru K V).
            (entries q.ll ≡ take (suc n) ((k, (v, t)) ∷ delete k (entries c.ll)))
            × IsTied n q
            × (q.ttl ≡ c.ttl))
          (sym same)
          (
            entries-push n c k v t f
                ∙ sym (
                    take_all (suc n) ((k, (v, t)) ∷ delete k (entries c.ll)) (
                      subst (λ z. length z ≤ suc n) (entries-push n c k v t f)
                        (omega (arith, length-entries p.ll, few)))),
            subst (λ z. IsTied n (record p { capacity = z })) (sym bound)
                (push-IsTied n c k v t s f n (omega (arith, leb→le (length c.ll) n room))),
            unfold push in refl,
          )
    | inr full ↦
        let p = push k v t c in
        let bound : p.capacity ≡ pos (suc n) = unfold push in s.capacity in
        let many : length p.ll ≡ suc (suc n) = unfold push in ground (arith, s.within, full) in
        let (y, last) : ((y : Element K V) × (back p.ll ≡ some y)) =
          unfold push in back-some (newest k v t c) c.ll in
        let same = overflows n p y bound many last in
        let apart = push-Apart n c k v t s f in
        let wide = push-IsTied n c k v t s f (suc n) (omega (arith, s.within)) in
        subst
          (λ (q : Lru K V).
            (entries q.ll ≡ take (suc n) ((k, (v, t)) ∷ delete k (entries c.ll)))
            × IsTied n q
            × (q.ttl ≡ c.ttl))
          (sym same)
          (
            unfold remove_element in
                entries-drop_back p.ll y (suc n) apart last many
                ∙ ap (take (suc n)) (entries-push n c k v t f),
            shrunk n p y bound many wide (find_key-back p.ll y apart last),
            unfold push remove_element in refl,
          )
  ]
