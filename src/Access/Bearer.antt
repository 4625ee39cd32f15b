-- ===== src/Access/Bearer.antt =====
-- middleware/platform.go: BearerToken, with `strings.Fields`.
use synapse_go.Base.{
  ◌≡◌, refl, ap, ◌∙◌, Bool, false, List, [], ◌∷◌, ◌++◌, if◌then◌else◌, All, nat_eq, list_beq, Text,
  text_eq, codes, is_empty, is_space, lower_rune, to_lower, ascii_cases, push_word, fields,
  words_one, words-append, words-space, pushed,
}

-- `strings.EqualFold` with "Bearer", none of whose letters folds with a letter outside ASCII.
unfoldable pub is_bearer : Text → Bool
unfolding lower_rune
is_bearer s = list_beq (to_lower ascii_cases s) (codes "bearer")

unfoldable pub bearer_of : List Text → Text
bearer_of (scheme ∷ token ∷ []) = if is_bearer scheme then token else []
bearer_of _ = []

unfoldable pub bearer_token : Text → Text
unfolding bearer_of fields
bearer_token header = bearer_of (fields header)

scheme : All (λ c. is_space c ≡ false) (codes "Bearer")
unfolding is_space
scheme = (refl, (refl, (refl, (refl, (refl, (refl, tt))))))

fields-scheme :
    (token : Text)
    → is_empty token ≡ false
    → All (λ c. is_space c ≡ false) token
    → fields (codes "Bearer" ++ b' ' ∷ token) ≡ codes "Bearer" ∷ token ∷ []
unfolding fields push_word
fields-scheme token e h =
    ap (λ (x : Text × List Text). push_word x.0 x.1)
      (words-append (codes "Bearer") (b' ' ∷ token) scheme)
    ∙ ap (λ (x : Text × List Text). push_word (codes "Bearer" ++ x.0) x.1) (words-space token)
    ∙ ap (λ (x : Text × List Text). codes "Bearer" ∷ push_word x.0 x.1) (words_one token h)
    ∙ ap (λ ws. codes "Bearer" ∷ ws) (pushed token e)

-- The header that a client sends with a token of one word.
pub bearer_token_lem :
    (token : Text)
    → is_empty token ≡ false
    → All (λ c. is_space c ≡ false) token
    → bearer_token (codes "Bearer " ++ token) ≡ token
unfolding bearer_token bearer_of is_bearer list_beq lower_rune
bearer_token_lem token e h = ap bearer_of (fields-scheme token e h)
