-- ===== src/Auth/Jwt.antt =====
-- What auth/auth.go takes of the package `golang-jwt/jwt` (version 5), which is a parameter.
use synapse_go.Base.{
  ℕ, ◌+◌, ◌≤◌, ◌<◌, ◌≡◌, Bool, true, false, Option, none, some, List, ltb, if◌then◌else◌, All, ℤ,
  nat_eq, Text, text_eq, is_empty, is_space, Time,
}

pub record Registered (D : Type 0) : Type 0 where
  pub issuer : Text
  pub audience : List Text
  pub issued_at : Option D
  pub expires_at : Option D

-- The JSON object of a token: the members that the three claims types name, an absent one with Go's
-- zero value, as `encoding/json` leaves it.
pub record Payload (D : Type 0) : Type 0 where
  pub tenant_id : ℕ
  pub tenant_code : Text
  pub principal_id : ℕ
  pub principal_type : Text
  pub role_codes : List Text
  pub token_version : ℤ
  pub token_type : Text
  pub actor_principal_id : Option ℕ
  pub scope : Text
  pub registered : Registered D

-- The claims types into which a token is decoded.
pub data Kind : Type 0 where
  platform tenant step_up : Kind

-- `sign` is `NewWithClaims(SigningMethodHS256, ...).SignedString(key)`, `is_hmac` says whether the
-- method that a token names is of the HMAC family, and `parse` is `ParseWithClaims` into the claims
-- type of a kind, with the result of the key function, at a time, where `none` stands for an error,
-- of the decoding too, and for an invalid token. Members that the type does not name are not used.
pub record Jwt : Type 1 where
  pub NumericDate : Type 0
  pub numeric_date : Time → NumericDate
  pub time_of : NumericDate → Time
  pub sign : Text → Payload NumericDate → Option Text
  pub is_hmac : Text → Bool
  pub parse : Kind → Option Text → Time → Text → Option (Payload NumericDate)

unfoldable pub unexpired : (J : Jwt) → Time → Option (J.NumericDate) → Bool
unexpired J now none = true
unexpired J now (some d) = ltb now (J.time_of d)

-- A date has the precision of a second; without a key nothing is accepted; a signed token names its
-- method, is one word, and is accepted with its key, into each of the claims types, until it has expired. A token that is decoded
-- into two of the types has the same `token_type` in both, since they have one tag for it.
pub record Laws (J : Jwt) : Type 0 where
  pub numeric_date_le : (t : Time) → J.time_of (J.numeric_date t) ≤ t
  pub numeric_date_lt : (t : Time) → t < J.time_of (J.numeric_date t) + 1000000000
  pub parse_no_key : (k : Kind) (now : Time) (token : Text) → J.parse k none now token ≡ none
  pub sign-is_hmac :
      (key token : Text) (p : Payload J.NumericDate)
      → J.sign key p ≡ some token
      → J.is_hmac token ≡ true
  pub sign-is_word :
      (key token : Text) (p : Payload J.NumericDate)
      → J.sign key p ≡ some token
      → (is_empty token ≡ false) × All (λ c. is_space c ≡ false) token
  pub parse-token_type :
      (k j : Kind) (key : Option Text) (now : Time) (token : Text) (p q : Payload J.NumericDate)
      → J.parse k key now token ≡ some p
      → J.parse j key now token ≡ some q
      → p.token_type ≡ q.token_type
  pub parse-sign :
      (k : Kind) (key token : Text) (p : Payload J.NumericDate) (now : Time)
      → J.sign key p ≡ some token
      → J.parse k (some key) now token
        ≡ (if unexpired J now p.registered.expires_at then some p else none)
