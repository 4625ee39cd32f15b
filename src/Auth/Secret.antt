-- ===== src/Auth/Secret.antt =====
-- auth/auth.go: the strength of the signing key.
use synapse_go.Base.{
  ℕ, ◌≤◌, ◌≡◌, refl, sym, ◌∙◌, ◌≢◌, inl, inr, Option, none, some, List, [], ◌∷◌, arith, ltb,
  if◌then◌else◌, ltb_false→le, Bool-cases, All, nat_eq, ne_of_beq, list_beq, Text, text_eq, codes,
  byte_len, Cases, to_lower,
}

abbrev pub known_bad_secrets : List Text
known_bad_secrets =
    codes "your_production_jwt_secret_key_here"
    ∷ codes "dev_jwt_secret_key_please_change_in_production"
    ∷ codes "dev_jwt_secret_key_please_change_in_production_32chars"
    ∷ codes "test_jwt_secret_key_32chars_for_testing"
    ∷ codes "change_me"
    ∷ codes "secret"
    ∷ codes "jwt_secret"
    ∷ codes "default_secret"
    ∷ []

abbrev pub min_secret_len : ℕ
min_secret_len = 32

pub data Weakness : Type 0 where
  too_short : ℕ → Weakness
  placeholder : Text → Weakness

-- The loop over the placeholders.
unfoldable pub first_match : Cases → Text → List Text → Option Weakness
first_match u lower [] = none
first_match u lower (bad ∷ bads) =
    let rest = first_match u lower bads in
    if list_beq lower (to_lower u bad) then some (placeholder bad) else rest

unfoldable pub validate_secret_strength : Cases → Text → Option Weakness
validate_secret_strength u secret =
    if ltb (byte_len secret) min_secret_len
    then some (too_short (byte_len secret))
    else first_match u (to_lower u secret) known_bad_secrets

-- No known placeholder, in whatever case.
pub Distinctive : Cases → Text → List Text → Type 0
Distinctive u secret bads = All (λ bad. to_lower u secret ≢ to_lower u bad) bads

first_match-none :
    (u : Cases) (secret : Text) (bads : List Text)
    → first_match u (to_lower u secret) bads ≡ none
    → Distinctive u secret bads
unfolding first_match Distinctive
first_match-none u secret [] h = tt
first_match-none u secret (bad ∷ bads) h =
    elim (Bool-cases (list_beq (to_lower u secret) (to_lower u bad))) [
      | inl same ↦ absurd (ground arith)
      | inr other ↦ (
        ne_of_beq {A = Text} (to_lower u secret) (to_lower u bad) other,
        first_match-none u secret bads (ground arith),
      )
    ]

pub secret_accepted :
    (u : Cases) (secret : Text)
    → validate_secret_strength u secret ≡ none
    → (32 ≤ byte_len secret) × Distinctive u secret known_bad_secrets
unfolding validate_secret_strength
secret_accepted u secret h = elim (Bool-cases (ltb (byte_len secret) 32)) [
  | inl short ↦ absurd (ground arith)
  | inr long ↦ (
    ltb_false→le (byte_len secret) 32 long,
    first_match-none u secret known_bad_secrets (sym (rw long refl) ∙ h),
  )
]
