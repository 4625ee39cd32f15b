-- ===== src/Access/Admission.antt =====
-- Which requests PlatformToken and TenantToken let through.
use synapse_go.Base.{
  ℕ, ◌≡◌, refl, sym, ap, ◌∙◌, ◌≢◌, ◌⊎◌, inl, inr, false, ◌||◌, Option, none, some, List, ◌++◌,
  arith, ltb, if◌then◌else◌, Bool-cases, Option-cases, ℤ, eq_ℤ, eq_of_eq_ℤ, nat_eq, Text, text_eq,
  codes, is_empty, Time, Duration,
}
use synapse_go.Auth.Jwt.{Jwt, Laws}
use synapse_go.Auth.Claims.{Err, PlatformClaims, TenantClaims, TokenService, platform_payload}
use synapse_go.Auth.Tokens.{
  new_platform_claims, issue_platform_token, parse_tenant_token, is_expiring_soon,
}
use synapse_go.Auth.RoundTrip.{expiry, parse-issue_platform}
use synapse_go.Access.Bearer.{bearer_token, bearer_token_lem}
use synapse_go.Access.Tokens.{
  token_invalid, token_revoked, Context, aborted, next, threshold_of, version_refusal,
  admit_platform, after_platform, platform_token, admit_tenant, after_tenant, tenant_token,
}

module _ (J : Jwt) where
  open J use {NumericDate, sign}

  -- The context behind PlatformToken.
  unfoldable pub admitted :
      List Duration → Time → PlatformClaims NumericDate → Context NumericDate → Context NumericDate
  admitted warn warn_now claims c = record c {
    principal_id = some claims.principal_id;
    platform = some claims;
    expiring_soon =
        c.expiring_soon || is_expiring_soon J claims.registered (threshold_of warn) warn_now;
  }

  sent :
      (laws : Laws J) (s : TokenService) (principal : ℕ) (roles : List Text) (version : ℤ)
      (now : Time) (token : Text)
      → issue_platform_token J s principal roles version now ≡ some token
      → (bearer_token (codes "Bearer " ++ token) ≡ token) × (is_empty token ≡ false)
  unfolding issue_platform_token
  sent laws s principal roles version now token made =
      let c = new_platform_claims J s principal roles version now in
      let (e, w) = laws.sign-is_word s.secret token (platform_payload c) made in
      (bearer_token_lem token e w, e)

  -- A client that sends the platform token it was issued is let through with the claims that were
  -- signed while the token has not expired and the principal's version is the one that was signed;
  -- a raised version revokes the token, and an expired token is invalid. The principal is not 0.
  pub issued_admitted :
      (laws : Laws J) (s : TokenService) (principal : ℕ) (roles : List Text) (version current : ℤ)
      (versions : ℕ → Option ℤ) (warn : List Duration) (now at warn_now : Time) (token : Text)
      (c : Context NumericDate)
      → principal ≢ 0
      → issue_platform_token J s principal roles version now ≡ some token
      → c.authorization ≡ codes "Bearer " ++ token
      → versions principal ≡ some current
      → platform_token J (some versions) warn at warn_now (some s) c ≡ (
          if ltb at (expiry J s.plat_ttl now)
          then if eq_ℤ version current
            then next
                (admitted warn warn_now (new_platform_claims J s principal roles version now) c)
            else aborted 401 token_revoked
          else aborted 401 token_invalid)
  unfolding platform_token after_platform admit_platform version_refusal admitted
      new_platform_claims
  issued_admitted laws s principal roles version current versions warn now at warn_now token c d
        made header found =
      let (read, word) = sent laws s principal roles version now token made in
      let got = ap bearer_token header ∙ read in
      ground (
        arith,
        got,
        word,
        found,
        parse-issue_platform J laws s principal roles version now at token d made,
      )

  version_kept :
      (versions : ℕ → Option ℤ) (principal : ℕ) (version : ℤ)
      → version_refusal (some versions) principal version ≡ none
      → versions principal ≡ some version
  unfolding version_refusal
  version_kept versions principal version h = elim (Option-cases (versions principal)) [
    | inl fault ↦ absurd (ground arith)
    | inr (current, found) ↦ elim (Bool-cases (eq_ℤ version current)) [
      | inl same ↦ found ∙ ap some (sym (eq_of_eq_ℤ version current same))
      | inr other ↦ absurd (ground arith)
    ]
  ]

  tenant_parsed :
      (versions : Option (ℕ → Option ℤ)) (warn : List Duration) (now warn_now : Time)
      (c c' : Context NumericDate) (r : Err ⊎ TenantClaims NumericDate)
      → after_tenant J versions warn now warn_now c r ≡ next c'
      → (claims : TenantClaims NumericDate) × (r ≡ inr claims)
        × (admit_tenant J versions warn now warn_now c claims ≡ next c')
  unfolding after_tenant
  tenant_parsed versions warn now warn_now c c' (inl e) h = absurd (ground arith)
  tenant_parsed versions warn now warn_now c c' (inr claims) h = (claims, refl, h)

  tenant_written :
      (versions : ℕ → Option ℤ) (warn : List Duration) (now warn_now : Time)
      (c c' : Context NumericDate) (claims : TenantClaims NumericDate)
      → admit_tenant J (some versions) warn now warn_now c claims ≡ next c'
      → (versions claims.principal_id ≡ some claims.token_version)
        × (c'.tenant ≡ some claims)
        × (c'.tenant_id ≡ some claims.tenant_id)
        × (c'.principal_id ≡ some claims.principal_id)
        × (c'.platform ≡ c.platform)
  unfolding admit_tenant
  tenant_written versions warn now warn_now c c' claims h =
      let refusal = version_refusal (some versions) claims.principal_id claims.token_version in
      elim (Option-cases refusal) [
        | inr (r, refused) ↦ absurd (ground arith)
        | inl fine ↦ (
          version_kept versions claims.principal_id claims.token_version fine,
          ground arith,
          ground arith,
          ground arith,
          ground arith,
        )
      ]

  tenant_sent :
      (s : TokenService) (versions : Option (ℕ → Option ℤ)) (warn : List Duration)
      (now warn_now : Time) (c c' : Context NumericDate)
      → tenant_token J versions warn now warn_now (some s) c ≡ next c'
      → after_tenant J versions warn now warn_now c
          (parse_tenant_token J s now (bearer_token c.authorization))
        ≡ next c'
  unfolding tenant_token
  tenant_sent s versions warn now warn_now c c' h =
      elim (Bool-cases (is_empty (bearer_token c.authorization))) [
        | inl nothing ↦ absurd (ground arith)
        | inr something ↦ ground arith
      ]

  -- A request that TenantToken lets through has a bearer token that the service accepts, whose
  -- version is the principal's current one; and the tenant and the principal of the context are
  -- those of the token.
  pub tenant_admission :
      (s : TokenService) (versions : ℕ → Option ℤ) (warn : List Duration) (now warn_now : Time)
      (c c' : Context NumericDate)
      → tenant_token J (some versions) warn now warn_now (some s) c ≡ next c'
      → (claims : TenantClaims NumericDate) × (parse_tenant_token J s now
            (bearer_token c.authorization)
          ≡ inr claims)
        × (versions claims.principal_id ≡ some claims.token_version)
        × (c'.tenant ≡ some claims)
        × (c'.tenant_id ≡ some claims.tenant_id)
        × (c'.principal_id ≡ some claims.principal_id)
        × (c'.platform ≡ c.platform)
  tenant_admission s versions warn now warn_now c c' passed =
      let r = parse_tenant_token J s now (bearer_token c.authorization) in
      let (claims, read, gate) =
        tenant_parsed (some versions) warn now warn_now c c' r
          (tenant_sent s (some versions) warn now warn_now c c' passed) in
      let (version, known, tenant, principal, other) =
        tenant_written versions warn now warn_now c c' claims gate in
      (claims, read, version, known, tenant, principal, other)
