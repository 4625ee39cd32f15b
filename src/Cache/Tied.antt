-- ===== src/Cache/Tied.antt =====
-- The map and the list of an Lru cache, tied together.
use synapse_go.Base.{
  ℕ, suc, ◌≤◌, ◌<◌, ◌≡◌, sym, ap, ap₂, subst, ◌∙◌, Option, none, some, List, [], ◌∷◌, arith, length,
  All, pos, Eq, nat_eq, lookup, delete, lookup-delete, text_eq,
}
use synapse_go.Cache.Lru.{Element, Lru, remove_id, remove_element}
use synapse_go.Cache.Elements.{
  find_key, Unlike, Apart, All-find_key, All-remove_id, Apart-remove_id, key-found, remove_id-found,
  find_key-remove_key, length-remove_id, Unlike-rest,
}
use synapse_go.Cache.Recency.{entries, delete-entries}

unfoldable pub id_of {ℓ κ} : {K : Type ℓ} {V : Type κ} → Option (Element K V) → Option ℕ
id_of none = none
id_of (some x) = some x.id

module _ {ℓ κ} {K : Type ℓ} {V : Type κ} ⦃e : Eq K⦄ where
  -- The map points to exactly the elements of the list, by their keys; pointers and keys are
  -- distinct, a new pointer is new, and there is room for all elements.
  pub record IsTied (n : ℕ) (c : Lru K V) : Type (ℓ ⊔ κ) where
    pub capacity : c.capacity ≡ pos (suc n)
    pub fresh : All (λ (x : Element K V). x.id < c.next_id) c.ll
    pub apart : Apart c.ll
    pub tied : (k : K) → lookup k c.items ≡ id_of (find_key k c.ll)
    pub within : length c.ll ≤ suc n

  pub remove_element-IsTied :
      (n : ℕ) (c : Lru K V) (k : K) (x : Element K V)
      → IsTied n c
      → find_key k c.ll ≡ some x
      → IsTied n (remove_element x c)
  unfolding remove_element id_of
  remove_element-IsTied n c k x t f = record {
    capacity = t.capacity;
    fresh = All-remove_id (λ (y : Element K V). y.id < c.next_id) x.id c.ll t.fresh;
    apart = Apart-remove_id x.id c.ll t.apart;
    tied = λ j. ground (
      arith,
      lookup-delete x.key j c.items,
      remove_id-found k c.ll x t.apart f,
      find_key-remove_key k j c.ll,
      t.tied j,
      key-found k c.ll x f,
      e.beq_iff x.key j,
      e.beq_iff k j,
    );
    within = omega (arith, length-remove_id k c.ll x t.apart f);
  }

  pub entries-remove_element :
      (n : ℕ) (c : Lru K V) (k : K) (x : Element K V)
      → IsTied n c
      → find_key k c.ll ≡ some x
      → entries (remove_element x c).ll ≡ delete k (entries c.ll)
  unfolding remove_element
  entries-remove_element n c k x t f =
      ap entries (remove_id-found k c.ll x t.apart f) ∙ sym (delete-entries k c.ll)

  -- The element of a key at the front, with another value.
  unfoldable pub refront : Element K V → Element K V → Lru K V → Lru K V
  refront x y c = record c { ll = y ∷ remove_id x.id c.ll }

  pub refront-IsTied :
      (n : ℕ) (c : Lru K V) (k : K) (x y : Element K V)
      → IsTied n c
      → find_key k c.ll ≡ some x
      → y.id ≡ x.id
      → y.key ≡ x.key
      → IsTied n (refront x y c)
  unfolding refront id_of
  refront-IsTied n c k x y t f same_id same_key = record {
    capacity = t.capacity;
    fresh = (
      subst (λ i. i < c.next_id) (sym same_id)
          (All-find_key (λ (z : Element K V). z.id < c.next_id) k c.ll x t.fresh f),
      All-remove_id (λ (z : Element K V). z.id < c.next_id) x.id c.ll t.fresh,
    );
    apart = (
      like (remove_id x.id c.ll) (Unlike-rest k c.ll x t.apart f),
      Apart-remove_id x.id c.ll t.apart,
    );
    tied = λ j. t.tied j ∙ tied_to j;
    within = omega (arith, t.within, length-remove_id k c.ll x t.apart f);
  }
    where
      like : (zs : List (Element K V)) → All (Unlike x) zs → All (Unlike y) zs
      like [] h = tt
      like (z ∷ zs) h =
          ((ground (arith, h.0.0, same_id), ground (arith, h.0.1, same_key)), like zs h.1)

      tied_to : (j : K) → id_of (find_key j c.ll) ≡ id_of (find_key j (y ∷ remove_id x.id c.ll))
      tied_to j =
          unfold find_key in
          ground (
            arith,
            f,
            same_id,
            same_key,
            remove_id-found k c.ll x t.apart f,
            find_key-remove_key k j c.ll,
            key-found k c.ll x f,
            e.beq_iff y.key j,
            e.beq_iff k j,
          )

  pub entries-refront :
      (n : ℕ) (c : Lru K V) (k : K) (x y : Element K V)
      → IsTied n c
      → find_key k c.ll ≡ some x
      → y.key ≡ x.key
      → entries (refront x y c).ll ≡ (k, (y.value, y.expires_at)) ∷ delete k (entries c.ll)
  unfolding refront entries
  entries-refront n c k x y t f same_key =
      ap₂ (λ a b. (a, (y.value, y.expires_at)) ∷ b) (same_key ∙ key-found k c.ll x f)
        (ap entries (remove_id-found k c.ll x t.apart f) ∙ sym (delete-entries k c.ll))
