-- ===== src/Cache/Elements.antt =====
-- Elements found by their key and by their pointer, in a list where both are distinct.
use synapse_go.Base.{
  ℕ, ◌+◌, ◌≡◌, refl, ap, subst, ◌∙◌, inl, inr, true, false, Option, none, some, List, [], ◌∷◌,
  arith, ◌==◌, if◌then◌else◌, Bool-cases, length, All, Eq, nat_eq, beq_refl, text_eq, Time,
}
use synapse_go.Cache.Lru.{Element, find_id, remove_id, front, move_to_front, back, write_id}

module _ {ℓ κ} {K : Type ℓ} {V : Type κ} ⦃e : Eq K⦄ where
  unfoldable pub find_key : K → List (Element K V) → Option (Element K V)
  find_key k [] = none
  find_key k (x ∷ xs) = if e.beq x.key k then some x else find_key k xs

  unfoldable pub remove_key : K → List (Element K V) → List (Element K V)
  remove_key k [] = []
  remove_key k (x ∷ xs) = let rest = remove_key k xs in if e.beq x.key k then rest else x ∷ rest

  -- Neither the pointer nor the key of an element is that of another.
  abbrev pub Unlike : Element K V → Element K V → Type 0
  Unlike x y = ((y.id == x.id) ≡ false) × (e.beq y.key x.key ≡ false)

  abbrev pub Apart : List (Element K V) → Type 0
  Apart [] = Unit
  Apart (x ∷ xs) = All (Unlike x) xs × Apart xs

  pub All-find_key {μ} :
      (P : Element K V → Type μ) (k : K) (xs : List (Element K V)) (x : Element K V)
      → All P xs
      → find_key k xs ≡ some x
      → P x
  unfolding find_key
  All-find_key P k [] x h f = absurd (ground arith)
  All-find_key P k (y ∷ xs) x h f = elim (Bool-cases (e.beq y.key k)) [
    | inl hit ↦ subst P (ground (arith, hit, f)) h.0
    | inr miss ↦ All-find_key P k xs x h.1 (ground (arith, miss, f))
  ]

  pub All-remove_id {μ} :
      (P : Element K V → Type μ) (i : ℕ) (xs : List (Element K V))
      → All P xs
      → All P (remove_id i xs)
  unfolding remove_id
  All-remove_id P i [] h = tt
  All-remove_id P i (x ∷ xs) h = elim (Bool-cases (x.id == i)) [
    | inl hit ↦ rw hit (All-remove_id P i xs h.1)
    | inr miss ↦ rw miss (h.0, All-remove_id P i xs h.1)
  ]

  pub Apart-remove_id : (i : ℕ) (xs : List (Element K V)) → Apart xs → Apart (remove_id i xs)
  unfolding remove_id
  Apart-remove_id i [] h = tt
  Apart-remove_id i (x ∷ xs) h = elim (Bool-cases (x.id == i)) [
    | inl hit ↦ rw hit (Apart-remove_id i xs h.1)
    | inr miss ↦ rw miss (All-remove_id (Unlike x) i xs h.0, Apart-remove_id i xs h.1)
  ]

  remove_id_absent :
      (x : Element K V) (xs : List (Element K V)) → All (Unlike x) xs → remove_id x.id xs ≡ xs
  unfolding remove_id
  remove_id_absent x [] h = refl
  remove_id_absent x (y ∷ xs) h = rw (h.0.0, remove_id_absent x xs h.1) refl

  remove_key_absent :
      (x : Element K V) (xs : List (Element K V)) → All (Unlike x) xs → remove_key x.key xs ≡ xs
  unfolding remove_key
  remove_key_absent x [] h = refl
  remove_key_absent x (y ∷ xs) h = rw (h.0.1, remove_key_absent x xs h.1) refl

  pub key-found :
      (k : K) (xs : List (Element K V)) (x : Element K V) → find_key k xs ≡ some x → x.key ≡ k
  unfolding find_key
  key-found k [] x f = absurd (ground arith)
  key-found k (y ∷ xs) x f = elim (Bool-cases (e.beq y.key k)) [
    | inl hit ↦ ground (arith, hit, f, e.beq_iff y.key k)
    | inr miss ↦ key-found k xs x (ground (arith, miss, f))
  ]

  -- The element of a key, by its pointer.
  pub find_id-found :
      (k : K) (xs : List (Element K V)) (x : Element K V)
      → Apart xs
      → find_key k xs ≡ some x
      → find_id x.id xs ≡ some x
  unfolding find_key find_id
  find_id-found k [] x a f = absurd (ground arith)
  find_id-found k (y ∷ xs) x a f = elim (Bool-cases (e.beq y.key k)) [
    | inl hit ↦ ground (arith, hit, f)
    | inr miss ↦
        let deeper : find_key k xs ≡ some x = ground (arith, miss, f) in
        let other = All-find_key (Unlike y) k xs x a.0 deeper in
        ground (arith, other.0, find_id-found k xs x a.1 deeper)
  ]

  -- To remove by the pointer is to remove by the key.
  pub remove_id-found :
      (k : K) (xs : List (Element K V)) (x : Element K V)
      → Apart xs
      → find_key k xs ≡ some x
      → remove_id x.id xs ≡ remove_key k xs
  unfolding find_key remove_id remove_key
  remove_id-found k [] x a f = absurd (ground arith)
  remove_id-found k (y ∷ xs) x a f = elim (Bool-cases (e.beq y.key k)) [
    | inl hit ↦
        let same : y ≡ x = ground (arith, hit, f) in
        let key : y.key ≡ k = (e.beq_iff y.key k).0 hit in
        subst (λ z. remove_id z.id (y ∷ xs) ≡ remove_key k (y ∷ xs)) same
          (ground (arith, hit, key, remove_id_absent y xs a.0, remove_key_absent y xs a.0))
    | inr miss ↦
        let deeper : find_key k xs ≡ some x = ground (arith, miss, f) in
        let other = All-find_key (Unlike y) k xs x a.0 deeper in
        ground (arith, miss, other.0, remove_id-found k xs x a.1 deeper)
  ]

  pub find_key-remove_key :
      (k j : K) (xs : List (Element K V))
      → find_key j (remove_key k xs) ≡ (if e.beq k j then none else find_key j xs)
  unfolding find_key remove_key
  find_key-remove_key k j [] = ground arith
  find_key-remove_key k j (x ∷ xs) =
      ground
        (arith, e.beq_iff k j, e.beq_iff x.key k, e.beq_iff x.key j, find_key-remove_key k j xs)

  pub length-remove_id :
      (k : K) (xs : List (Element K V)) (x : Element K V)
      → Apart xs
      → find_key k xs ≡ some x
      → length (remove_id x.id xs) + 1 ≡ length xs
  unfolding find_key remove_id
  length-remove_id k [] x a f = absurd (ground arith)
  length-remove_id k (y ∷ xs) x a f = elim (Bool-cases (e.beq y.key k)) [
    | inl hit ↦
        let same : y ≡ x = ground (arith, hit, f) in
        subst (λ z. length (remove_id z.id (y ∷ xs)) + 1 ≡ length (y ∷ xs)) same
          (ground (arith, remove_id_absent y xs a.0))
    | inr miss ↦
        let deeper : find_key k xs ≡ some x = ground (arith, miss, f) in
        let other = All-find_key (Unlike y) k xs x a.0 deeper in
        ground (arith, other.0, length-remove_id k xs x a.1 deeper)
  ]

  flip : (x y : Element K V) → Unlike y x → Unlike x y
  flip x y h =
      (ground (arith, h.0), ground (arith, h.1, e.beq_iff x.key y.key, e.beq_iff y.key x.key))

  pub Unlike-rest :
      (k : K) (xs : List (Element K V)) (x : Element K V)
      → Apart xs
      → find_key k xs ≡ some x
      → All (Unlike x) (remove_id x.id xs)
  unfolding find_key remove_id
  Unlike-rest k [] x a f = absurd (ground arith)
  Unlike-rest k (y ∷ xs) x a f = elim (Bool-cases (e.beq y.key k)) [
    | inl hit ↦
        let same : y ≡ x = ground (arith, hit, f) in
        let self : (y.id == y.id) ≡ true = ground arith in
        subst (λ z. All (Unlike z) (remove_id z.id (y ∷ xs))) same
          (rw (self, remove_id_absent y xs a.0) a.0)
    | inr miss ↦
        let deeper : find_key k xs ≡ some x = ground (arith, miss, f) in
        let other = flip x y (All-find_key (Unlike y) k xs x a.0 deeper) in
        rw (other.0) (other, Unlike-rest k xs x a.1 deeper)
  ]

  pub remove_key-none :
      (k : K) (xs : List (Element K V)) → find_key k xs ≡ none → remove_key k xs ≡ xs
  unfolding find_key remove_key
  remove_key-none k [] h = refl
  remove_key-none k (x ∷ xs) h = ground (arith, remove_key-none k xs)

  pub All-find_key-none :
      (k : K) (xs : List (Element K V)) → find_key k xs ≡ none → All (λ y. e.beq y.key k ≡ false) xs
  unfolding find_key
  All-find_key-none k [] h = tt
  All-find_key-none k (x ∷ xs) h = elim (Bool-cases (e.beq x.key k)) [
    | inl hit ↦ absurd (ground arith)
    | inr miss ↦ (miss, All-find_key-none k xs (ground arith))
  ]

  written : V → Time → Option (Element K V) → Option (Element K V)
  written v t none = none
  written v t (some x) = some (record x { value = v; expires_at = t })

  find_id-write_id :
      (i : ℕ) (v : V) (t : Time) (xs : List (Element K V))
      → find_id i (write_id i v t xs) ≡ written v t (find_id i xs)
  unfolding find_id write_id written
  find_id-write_id i v t [] = refl
  find_id-write_id i v t (x ∷ xs) = elim (Bool-cases (x.id == i)) [
    | inl hit ↦ rw (hit, hit) refl
    | inr miss ↦ rw (miss, miss) (find_id-write_id i v t xs)
  ]

  remove_id-write_id :
      (i : ℕ) (v : V) (t : Time) (xs : List (Element K V))
      → remove_id i (write_id i v t xs) ≡ remove_id i xs
  unfolding remove_id write_id
  remove_id-write_id i v t [] = refl
  remove_id-write_id i v t (x ∷ xs) = elim (Bool-cases (x.id == i)) [
    | inl hit ↦ rw (hit, hit) (remove_id-write_id i v t xs)
    | inr miss ↦ rw (miss, miss) (ap (◌∷◌ x) (remove_id-write_id i v t xs))
  ]

  pub moved :
      (k : K) (xs : List (Element K V)) (x : Element K V)
      → Apart xs
      → find_key k xs ≡ some x
      → move_to_front x.id xs ≡ x ∷ remove_id x.id xs
  unfolding move_to_front front
  moved k xs x a f = ap (λ o. front o (remove_id x.id xs)) (find_id-found k xs x a f)

  pub moved-write_id :
      (k : K) (v : V) (t : Time) (xs : List (Element K V)) (x : Element K V)
      → Apart xs
      → find_key k xs ≡ some x
      → move_to_front x.id (write_id x.id v t xs)
        ≡ record x { value = v; expires_at = t } ∷ remove_id x.id xs
  unfolding move_to_front front written
  moved-write_id k v t xs x a f =
      ap (front (find_id x.id (write_id x.id v t xs))) (remove_id-write_id x.id v t xs)
      ∙ ap (λ o. front o (remove_id x.id xs))
          (find_id-write_id x.id v t xs ∙ ap (written v t) (find_id-found k xs x a f))

  pub find_key-back :
      (xs : List (Element K V)) (x : Element K V)
      → Apart xs
      → back xs ≡ some x
      → find_key x.key xs ≡ some x
  unfolding back find_key
  find_key-back [] x a h = absurd (ground arith)
  find_key-back (y ∷ []) x a h = ground (arith, beq_refl x.key)
  find_key-back (y ∷ z ∷ xs) x a h =
      let deeper = find_key-back (z ∷ xs) x a.1 h in
      let other = All-find_key (Unlike y) x.key (z ∷ xs) x a.0 deeper in
      ground (arith, deeper, (flip x y other).1)

  pub back-some :
      (x : Element K V) (xs : List (Element K V)) → (y : Element K V) × (back (x ∷ xs) ≡ some y)
  unfolding back
  back-some x [] = (x, refl)
  back-some x (y ∷ xs) = back-some y xs
