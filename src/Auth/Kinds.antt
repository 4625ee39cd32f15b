-- ===== src/Auth/Kinds.antt =====
-- A token of one kind is not accepted in the place of another.
use synapse_go.Base.{
  ◌≤◌, ◌≡◌, refl, sym, ap, subst, ◌∙◌, ◌≢◌, ◌⊎◌, inl, inr, false, Option, none, some, arith,
  Bool-cases, Option-cases, ℤ, nat_eq, list_beq, list_beq_iff, Text, text_eq, codes, is_empty,
  byte_len, trim_space, Cases, Time,
}
use synapse_go.Auth.Jwt.{Payload, Kind, platform, tenant, step_up, Jwt, Laws}
use synapse_go.Auth.Secret.{
  known_bad_secrets, validate_secret_strength, Distinctive, secret_accepted,
}
use synapse_go.Auth.Claims.{
  Err, invalid_token, wrong_type, TokenService, new_token_service_with_audience, platform_claims,
  tenant_claims, step_up_claims,
}
use synapse_go.Auth.Tokens.{
  key_func, parsed, accept_platform, read_platform, parse_platform_token, accept_tenant,
  read_tenant, parse_tenant_token, accept_step_up, read_step_up, parse_step_up_token,
}

abbrev pub name_of : Kind → Text
name_of platform = codes "platform"
name_of tenant = codes "tenant"
name_of step_up = codes "step_up"

unfoldable pub error_of : {C : Type 0} → Err ⊎ C → Option Err
error_of (inl e) = some e
error_of (inr c) = none

module _ (J : Jwt) where
  open J use {NumericDate, parse}

  -- The error of the parser for a kind of tokens, `none` where it accepts.
  unfoldable pub parse_error : Kind → TokenService → Time → Text → Option Err
  unfolding error_of
  parse_error platform s now token = error_of (parse_platform_token J s now token)
  parse_error tenant s now token = error_of (parse_tenant_token J s now token)
  parse_error step_up s now token = error_of (parse_step_up_token J s now token)

  unread :
      (k : Kind) (s : TokenService) (now : Time) (token : Text)
      → parsed J k s now token ≡ none
      → parse_error k s now token ≡ some invalid_token
  unfolding parse_error error_of parse_platform_token parse_tenant_token parse_step_up_token
      read_platform read_tenant read_step_up
  unread platform s now token e = ground (arith, e)
  unread tenant s now token e = ground (arith, e)
  unread step_up s now token e = ground (arith, e)

  mistyped :
      (k : Kind) (s : TokenService) (now : Time) (token : Text) (p : Payload NumericDate)
      → parsed J k s now token ≡ some p
      → list_beq p.token_type (name_of k) ≡ false
      → parse_error k s now token ≡ some wrong_type
  unfolding parse_error error_of parse_platform_token parse_tenant_token parse_step_up_token
      read_platform read_tenant read_step_up accept_platform accept_tenant accept_step_up
      platform_claims tenant_claims step_up_claims
  mistyped platform s now token p e d = ground (arith, e, d)
  mistyped tenant s now token p e d = ground (arith, e, d)
  mistyped step_up s now token p e d = ground (arith, e, d)

  typed :
      (k : Kind) (s : TokenService) (now : Time) (token : Text) (p : Payload NumericDate)
      → parsed J k s now token ≡ some p
      → parse_error k s now token ≡ none
      → p.token_type ≡ name_of k
  typed k s now token p e ok = elim (Bool-cases (list_beq p.token_type (name_of k))) [
    | inl same ↦ ground (arith, same, list_beq_iff p.token_type (name_of k))
    | inr other ↦ absurd (ground (arith, ok, mistyped k s now token p e other))
  ]

  names_differ : (k j : Kind) → k ≢ j → list_beq (name_of k) (name_of j) ≡ false
  unfolding list_beq
  names_differ platform platform d = absurd (d refl)
  names_differ platform tenant d = refl
  names_differ platform step_up d = refl
  names_differ tenant platform d = refl
  names_differ tenant tenant d = absurd (d refl)
  names_differ tenant step_up d = refl
  names_differ step_up platform d = refl
  names_differ step_up tenant d = refl
  names_differ step_up step_up d = absurd (d refl)

  same_key :
      (k : Kind) (s t : TokenService) (now : Time) (token : Text)
      → t.secret ≡ s.secret
      → parsed J k t now token ≡ parsed J k s now token
  unfolding parsed key_func
  same_key k s t now token same = ground (arith, same)

  both_typed :
      (laws : Laws J) (k j : Kind) (s : TokenService) (now : Time) (token : Text)
      (p q : Payload NumericDate)
      → parsed J k s now token ≡ some p
      → parsed J j s now token ≡ some q
      → p.token_type ≡ q.token_type
  unfolding parsed
  both_typed laws k j s now token p q a b =
      laws.parse-token_type k j (key_func J s token) now token p q a b

  -- A token that the parser of one kind accepts, whoever made it, is refused by the parser of every
  -- other kind, in each service with the same key: as of the wrong type where its members can be
  -- decoded into the claims of that kind, and as invalid where they can not.
  pub no_confusion :
      (laws : Laws J) (k j : Kind) (s t : TokenService) (now : Time) (token : Text)
      → t.secret ≡ s.secret
      → parse_error k s now token ≡ none
      → k ≢ j
      → ((parsed J j t now token ≢ none) × (parse_error j t now token ≡ some wrong_type))
        ⊎ ((parsed J j t now token ≡ none) × (parse_error j t now token ≡ some invalid_token))
  no_confusion laws k j s t now token same ok d = elim (Option-cases (parsed J j t now token)) [
    | inl nothing ↦ inr (nothing, unread j t now token nothing)
    | inr (q, decoded) ↦ elim (Option-cases (parsed J k s now token)) [
      | inl nothing ↦ absurd (ground (arith, ok, unread k s now token nothing))
      | inr (p, found) ↦
          let both =
            both_typed laws k j s now token p q found
              (sym (same_key j s t now token same) ∙ decoded) in
          inl (
            λ e. absurd (ground (arith, decoded, e)),
            mistyped j t now token q decoded (
                ap (λ n. list_beq n (name_of j)) (sym both ∙ typed k s now token p found ok)
                ∙ names_differ k j d),
          )
    ]
  ]

-- A service that is made has a key of 32 bytes at least, which is no known placeholder in whatever
-- case, and an audience that is not empty.
made_strong :
    (u : Cases) (secret issuer audience : Text) (plat ten : ℤ) (s : TokenService)
    → new_token_service_with_audience u secret issuer audience plat ten ≡ inr s
    → (32 ≤ byte_len s.secret)
      × Distinctive u s.secret known_bad_secrets
      × (is_empty s.audience ≡ false)
unfolding new_token_service_with_audience
made_strong u secret issuer audience plat ten s made =
    elim (Option-cases (validate_secret_strength u secret)) [
      | inr (w, bad) ↦ absurd (ground (arith, bad, made))
      | inl good ↦ elim (Bool-cases (is_empty (trim_space audience))) [
        | inl blank ↦ absurd (ground (arith, good, made, blank))
        | inr named ↦
            let same : s.secret ≡ secret = ground (arith, good, made, named) in
            let kept : s.audience ≡ trim_space audience = ground (arith, good, made, named) in
            let (long, distinct) = secret_accepted u secret good in
            (
              subst (λ x. 32 ≤ byte_len x) (sym same) long,
              subst (λ x. Distinctive u x known_bad_secrets) (sym same) distinct,
              ap is_empty kept ∙ named,
            )
      ]
    ]
