-- ===== src/Cache/Recency.antt =====
-- What an Lru cache promises, without a list of elements or a map of pointers: the entries by their
-- keys, the most recently used one first.
use synapse_go.Base.{
  ℕ, zero, suc, ◌≤◌, ◌≡◌, refl, ap, Bool, false, not, ◌&&◌, Option, none, some, List, [], ◌∷◌,
  arith, ◌==◌, if◌then◌else◌, length, take, Eq, nat_eq, lookup, delete, text_eq, Time, is_zero,
  after,
}
use synapse_go.Cache.Lru.{Element, remove_id, back}
use synapse_go.Cache.Elements.{find_key, remove_key, Unlike, Apart, All-find_key, find_key-back}

-- A value with its expiry.
abbrev pub Recent {ℓ κ} : Type ℓ → Type κ → Type (ℓ ⊔ κ)
Recent K V = List (K × (V × Time))

abbrev pub spent : Time → Time → Bool
spent now t = not (is_zero t) && after now t

module _ {ℓ κ} {K : Type ℓ} {V : Type κ} ⦃e : Eq K⦄ where
  unfoldable pub recall_at : Time → K → Option (V × Time) → Recent K V → Option V × Recent K V
  recall_at now k none l = (none, l)
  recall_at now k (some (v, t)) l =
      if spent now t then (none, delete k l) else (some v, (k, (v, t)) ∷ delete k l)

  unfoldable pub recall : Time → K → Recent K V → Option V × Recent K V
  unfolding recall_at
  recall now k l = recall_at now k (lookup k l) l

  unfoldable pub remember : ℕ → K → V → Time → Recent K V → Recent K V
  remember n k v t l = take n ((k, (v, t)) ∷ delete k l)

  -- The entries of the elements.
  unfoldable pub entries : List (Element K V) → Recent K V
  entries [] = []
  entries (x ∷ xs) = (x.key, (x.value, x.expires_at)) ∷ entries xs

  unfoldable pub entry_of : Option (Element K V) → Option (V × Time)
  entry_of none = none
  entry_of (some x) = some (x.value, x.expires_at)

  pub lookup-entries :
      (k : K) (xs : List (Element K V)) → lookup k (entries xs) ≡ entry_of (find_key k xs)
  unfolding lookup entries find_key entry_of
  lookup-entries k [] = refl
  lookup-entries k (x ∷ xs) = ground (arith, lookup-entries k xs)

  pub delete-entries :
      (k : K) (xs : List (Element K V)) → delete k (entries xs) ≡ entries (remove_key k xs)
  unfolding delete entries remove_key
  delete-entries k [] = refl
  delete-entries k (x ∷ xs) = ground (arith, delete-entries k xs)

  pub length-entries : (xs : List (Element K V)) → length (entries xs) ≡ length xs
  unfolding entries
  length-entries [] = refl
  length-entries (x ∷ xs) = ap suc (length-entries xs)

  -- To drop the element at the back is to keep the entries before it.
  pub entries-drop_back :
      (xs : List (Element K V)) (x : Element K V) (n : ℕ)
      → Apart xs
      → back xs ≡ some x
      → length xs ≡ suc n
      → entries (remove_id x.id xs) ≡ take n (entries xs)
  unfolding back entries remove_id
  entries-drop_back [] x n a h l = absurd (ground arith)
  entries-drop_back (y ∷ []) x zero a h l = ground arith
  entries-drop_back (y ∷ []) x (suc n) a h l = absurd (omega arith)
  entries-drop_back (y ∷ z ∷ xs) x zero a h l = absurd (omega arith)
  entries-drop_back (y ∷ z ∷ xs) x (suc n) a h l =
      let kept = All-find_key (Unlike y) x.key (z ∷ xs) x a.0 (find_key-back (z ∷ xs) x a.1 h) in
      let apart : (y.id == x.id) ≡ false = ground (arith, kept.0) in
      rw apart (
        ap (◌∷◌ (y.key, (y.value, y.expires_at)))
          (entries-drop_back (z ∷ xs) x n a.1 h (omega arith)))

  pub take_all : (n : ℕ) (l : Recent K V) → length l ≤ n → take n l ≡ l
  take_all zero [] h = refl
  take_all zero (x ∷ l) h = absurd (omega arith)
  take_all (suc n) [] h = refl
  take_all (suc n) (x ∷ l) h = ap (◌∷◌ x) (take_all n l (omega arith))
