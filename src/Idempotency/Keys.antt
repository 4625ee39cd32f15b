-- ===== src/Idempotency/Keys.antt =====
-- idempotency/idempotency.go. The hexadecimal SHA-256 digest of a text is `digest`, and `escaped` is
-- what http.NewRequest makes of a path: its escaped path, or nothing when there is none.
use synapse_go.Base.{
  ℕ, ◌⊎◌, inl, inr, Bool, not, ◌&&◌, ◌||◌, Option, none, some, List, [], ◌∷◌, ◌++◌, ltb, leb,
  if◌then◌else◌, nat_eq, Text, text_eq, codes, is_empty, byte_len, is_space, trim_space, has_prefix,
  trim_prefix, all_runes, Cases, to_upper, format_nat,
}

pub data Err : Type 0 where
  invalid_key invalid_scope : Err

pub record RequestScope : Type 0 where
  pub tenant_id : Text
  pub principal_id : Text
  pub method : Text
  pub path : Text
  pub key : Text

abbrev pub max_key_length : ℕ
max_key_length = 255

abbrev pub hash_prefix : Text
hash_prefix = codes "sha256:"

-- `unicode.IsControl`
unfoldable pub is_control : ℕ → Bool
is_control c = ltb c 32 || (leb 127 c && ltb c 160)

unfoldable pub is_plain : ℕ → Bool
is_plain c = not (is_control c || is_space c)

unfoldable pub normalize_key : Text → Err ⊎ Text
normalize_key raw =
    let key = trim_space raw in
    if is_empty key || ltb max_key_length (byte_len key)
    then inl invalid_key
    else if all_runes is_plain key
    then inr key
    else inl invalid_key

-- One part, as `HashParts` writes it to the hash.
unfoldable pub frame : Text → Text
frame part = format_nat (byte_len part) ++ (58 ∷ part ++ (0 ∷ []))

unfoldable pub frames : List Text → Text
frames [] = []
frames (p ∷ ps) = frame p ++ frames ps

module _ (digest : Text → Text) where
  unfoldable pub body_hash : Text → Text
  body_hash body = hash_prefix ++ digest body

  unfoldable pub reader_hash : Option Text → Option Text
  reader_hash none = none
  reader_hash (some body) = some (hash_prefix ++ digest body)

  unfoldable pub hash_parts : List Text → Text
  hash_parts parts = hash_prefix ++ digest (frames parts)

module _ (u : Cases) (escaped : Text → Option Text) where
  unfoldable pub normalize_method : Text → Text
  normalize_method method = to_upper u (trim_space method)

  unfoldable pub escape : Option Text → Text → Text
  escape none path = path
  escape (some []) path = path
  escape (some (c ∷ p)) path = c ∷ p

  unfoldable pub normalize_path : Text → Text
  normalize_path raw =
      let path = trim_space raw in
      let p = escape (escaped path) path in
      if is_empty path then [] else if has_prefix p (codes "/") then p else b'/' ∷ p

  unfoldable pub normalize_rest : RequestScope → Text → Err ⊎ RequestScope
  normalize_rest scope key =
      let tenant = trim_space scope.tenant_id in
      let principal = trim_space scope.principal_id in
      let method = normalize_method scope.method in
      let path = normalize_path scope.path in
      if is_empty tenant || is_empty principal || is_empty method || is_empty path
      then inl invalid_scope
      else inr (record {
        tenant_id = tenant;
        principal_id = principal;
        method = method;
        path = path;
        key = key;
      })

  unfoldable pub with_key : Err ⊎ Text → RequestScope → Err ⊎ RequestScope
  with_key (inl e) scope = inl e
  with_key (inr key) scope = normalize_rest scope key

  unfoldable pub normalize_scope : RequestScope → Err ⊎ RequestScope
  normalize_scope scope = with_key (normalize_key scope.key) scope

  module _ (digest : Text → Text) where
    unfoldable pub request_hash : Text → Text → Text → Text
    request_hash method path body =
        hash_parts digest
          (normalize_method method ∷ normalize_path path ∷ body_hash digest body ∷ [])

    unfoldable pub key_of_scope : Err ⊎ RequestScope → Err ⊎ Text
    key_of_scope (inl e) = inl e
    key_of_scope (inr s) = inr (
        codes "idem:v1:"
        ++ trim_prefix
            (hash_parts digest (s.tenant_id ∷ s.principal_id ∷ s.method ∷ s.path ∷ s.key ∷ []))
            hash_prefix)

    unfoldable pub storage_key : RequestScope → Err ⊎ Text
    storage_key scope = key_of_scope (normalize_scope scope)
