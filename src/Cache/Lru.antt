-- ===== src/Cache/Lru.antt =====
-- cache/lru.go: Lru. A pointer to an element of the list is the element's id, which is its number in
-- the order of allocation; a pointer is followed by finding the element in the list. An element that
-- has left the list is not found: none of the operations follows such a pointer, since no map entry
-- points to one.
use synapse_go.Base.{
  ℕ, ◌+◌, Bool, not, ◌&&◌, Option, none, some, List, [], ◌∷◌, ◌==◌, if◌then◌else◌, length, ℤ, pos,
  ltb_ℤ, nonpos, Eq, nat_eq, lookup, insert, delete, text_eq, Time, Duration, is_zero, add_time,
  after,
}

pub record Element {ℓ κ} (K : Type ℓ) (V : Type κ) : Type (ℓ ⊔ κ) where
  pub id : ℕ
  pub key : K
  pub value : V
  pub expires_at : Time  -- the zero time is no expiry

-- `ll` holds the elements from the front to the back.
pub record Lru {ℓ κ} (K : Type ℓ) (V : Type κ) : Type (ℓ ⊔ κ) where
  pub capacity : ℤ
  pub ttl : Duration
  pub ll : List (Element K V)
  pub items : List (K × ℕ)
  pub next_id : ℕ

unfoldable pub expiry : Duration → Time → Time
expiry ttl now = if nonpos ttl then 0 else add_time now ttl

module _ {ℓ κ} {K : Type ℓ} {V : Type κ} where
  unfoldable pub new : ℤ → Duration → Lru K V
  new capacity ttl = record { capacity = capacity; ttl = ttl; ll = []; items = []; next_id = 0 }

  -- Following a pointer, and the operations of `container/list`.
  unfoldable pub find_id : ℕ → List (Element K V) → Option (Element K V)
  find_id id [] = none
  find_id id (x ∷ xs) = if x.id == id then some x else find_id id xs

  unfoldable pub remove_id : ℕ → List (Element K V) → List (Element K V)
  remove_id id [] = []
  remove_id id (x ∷ xs) = let rest = remove_id id xs in if x.id == id then rest else x ∷ rest

  unfoldable pub front : Option (Element K V) → List (Element K V) → List (Element K V)
  front none xs = xs
  front (some x) xs = x ∷ xs

  unfoldable pub move_to_front : ℕ → List (Element K V) → List (Element K V)
  unfolding front
  move_to_front id xs = front (find_id id xs) (remove_id id xs)

  unfoldable pub back : List (Element K V) → Option (Element K V)
  back [] = none
  back (x ∷ []) = some x
  back (x ∷ y ∷ xs) = back (y ∷ xs)

  -- `en.value = value` and `en.expiresAt = expiresAt`, through the pointer.
  unfoldable pub write_id : ℕ → V → Time → List (Element K V) → List (Element K V)
  write_id id v t [] = []
  write_id id v t (x ∷ xs) =
      (if x.id == id then record x { value = v; expires_at = t } else x) ∷ write_id id v t xs

  -- `!en.expiresAt.IsZero() && c.now().After(en.expiresAt)`
  unfoldable pub is_expired : Time → Element K V → Bool
  is_expired now x = not (is_zero x.expires_at) && after now x.expires_at

  unfoldable pub len : Lru K V → ℕ
  len c = length c.ll

  unfoldable pub purge : Lru K V → Lru K V
  purge c = record c { ll = []; items = [] }

module _ {ℓ κ} {K : Type ℓ} {V : Type κ} ⦃e : Eq K⦄ where
  unfoldable pub remove_element : Element K V → Lru K V → Lru K V
  remove_element x c = record c { ll = remove_id x.id c.ll; items = delete x.key c.items }

  unfoldable pub remove_found : Option (Element K V) → Lru K V → Lru K V
  unfolding remove_element
  remove_found none c = c
  remove_found (some x) c = remove_element x c

  unfoldable pub read : Time → ℕ → Option (Element K V) → Lru K V → Option V × Lru K V
  unfolding remove_element is_expired
  read now id none c = (none, c)
  read now id (some x) c =
      if is_expired now x
      then (none, remove_element x c)
      else (some x.value, record c { ll = move_to_front id c.ll })

  unfoldable pub get_at : Time → Option ℕ → Lru K V → Option V × Lru K V
  unfolding read
  get_at now none c = (none, c)
  get_at now (some id) c = read now id (find_id id c.ll) c

  unfoldable pub get : Time → K → Lru K V → Option V × Lru K V
  unfolding get_at
  get now key c = if nonpos c.capacity then (none, c) else get_at now (lookup key c.items) c

  -- `PushFront`, and the element at the back goes if there are too many.
  unfoldable pub push : K → V → Time → Lru K V → Lru K V
  push key v t c = record c {
    ll = record { id = c.next_id; key = key; value = v; expires_at = t } ∷ c.ll;
    items = insert key c.next_id c.items;
    next_id = c.next_id + 1;
  }

  unfoldable pub evict : Lru K V → Lru K V
  unfolding remove_found
  evict c = if ltb_ℤ c.capacity (pos (length c.ll)) then remove_found (back c.ll) c else c

  unfoldable pub set_at : Time → Option ℕ → K → V → Lru K V → Lru K V
  unfolding push evict
  set_at t none key v c = evict (push key v t c)
  set_at t (some id) key v c = record c { ll = move_to_front id (write_id id v t c.ll) }

  unfoldable pub set : Time → K → V → Lru K V → Lru K V
  unfolding set_at expiry
  set now key v c =
      if nonpos c.capacity then c else set_at (expiry c.ttl now) (lookup key c.items) key v c

  unfoldable pub delete_at : Option ℕ → Lru K V → Lru K V
  unfolding remove_found
  delete_at none c = c
  delete_at (some id) c = remove_found (find_id id c.ll) c

  unfoldable pub delete_key : K → Lru K V → Lru K V
  unfolding delete_at
  delete_key key c = if nonpos c.capacity then c else delete_at (lookup key c.items) c
