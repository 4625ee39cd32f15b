-- ===== src/Auth/Tokens.antt =====
-- auth/auth.go: issuing and parsing.
use synapse_go.Base.{
  ℕ, ◌⊎◌, inl, inr, Bool, false, not, ◌||◌, Option, none, some, List, [], ◌∷◌, ◌==◌, if◌then◌else◌,
  ℤ, pos, ltb_ℤ, nonpos, nat_eq, list_beq, Text, text_eq, codes, is_empty, trim_space, Time,
  Duration, add_time, sub_time,
}
use synapse_go.Auth.Jwt.{Registered, Payload, Kind, Jwt}
use synapse_go.Auth.Claims.{
  Err, invalid_token, wrong_type, invalid_step_up, sign_failed, principal_mismatch, max_step_up_ttl,
  PlatformClaims, TenantClaims, StepUpClaims, TokenService, check_audience_compat, platform_payload,
  tenant_payload, step_up_payload, platform_claims, tenant_claims, step_up_claims,
}

module _ (J : Jwt) where
  open J use {NumericDate, numeric_date, time_of, sign, is_hmac, parse}

  unfoldable pub registered_for : TokenService → Duration → Time → Registered NumericDate
  registered_for s ttl now = record {
    issuer = s.issuer;
    audience = s.audience ∷ [];
    issued_at = some (numeric_date now);
    expires_at = some (numeric_date (add_time now ttl));
  }

  unfoldable pub new_platform_claims :
      TokenService → ℕ → List Text → ℤ → Time → PlatformClaims NumericDate
  unfolding registered_for
  new_platform_claims s principal roles version now = record {
    principal_id = principal;
    principal_type = codes "platform_admin";
    role_codes = roles;
    token_version = version;
    token_type = codes "platform";
    registered = registered_for s s.plat_ttl now;
  }

  unfoldable pub issue_platform_token : TokenService → ℕ → List Text → ℤ → Time → Option Text
  unfolding new_platform_claims platform_payload
  issue_platform_token s principal roles version now =
      sign s.secret (platform_payload (new_platform_claims s principal roles version now))

  unfoldable pub new_tenant_claims :
      TokenService
      → ℕ
      → Text
      → ℕ
      → Text
      → List Text
      → ℤ
      → Option ℕ
      → Time
      → TenantClaims NumericDate
  unfolding registered_for
  new_tenant_claims s tenant code principal kind roles version actor now = record {
    tenant_id = tenant;
    tenant_code = code;
    principal_id = principal;
    principal_type = kind;
    role_codes = roles;
    token_version = version;
    token_type = codes "tenant";
    actor_principal_id = actor;
    registered = registered_for s s.ten_ttl now;
  }

  unfoldable pub issue_tenant_token :
      TokenService → ℕ → Text → ℕ → Text → List Text → ℤ → Option ℕ → Time → Option Text
  unfolding new_tenant_claims tenant_payload
  issue_tenant_token s tenant code principal kind roles version actor now =
      sign s.secret
        (tenant_payload (new_tenant_claims s tenant code principal kind roles version actor now))

  unfoldable pub new_step_up_claims :
      TokenService → ℕ → Text → Duration → Time → StepUpClaims NumericDate
  unfolding registered_for
  new_step_up_claims s principal scope ttl now = record {
    principal_id = principal;
    scope = scope;
    token_type = codes "step_up";
    registered = registered_for s ttl now;
  }

  unfoldable pub issue_step_up_token : TokenService → ℕ → Text → Duration → Time → Err ⊎ Option Text
  unfolding new_step_up_claims step_up_payload
  issue_step_up_token s principal scope ttl now =
      let trimmed = trim_space scope in
      if principal == 0 || is_empty trimmed || nonpos ttl || ltb_ℤ max_step_up_ttl ttl
      then inl invalid_step_up
      else inr (sign s.secret (step_up_payload (new_step_up_claims s principal trimmed ttl now)))

  -- The key of a token: none is given for a method outside the HMAC family.
  unfoldable pub key_func : TokenService → Text → Option Text
  key_func s token = if is_hmac token then some s.secret else none

  unfoldable pub parsed : Kind → TokenService → Time → Text → Option (Payload NumericDate)
  unfolding key_func
  parsed k s now token = parse k (key_func s token) now token

  unfoldable pub with_audience : {C : Type 0} → TokenService → List Text → C → Err ⊎ C
  with_audience s aud c = elim (check_audience_compat aud s.audience) [
    | some e ↦ inl e
    | none ↦ inr c
  ]

  unfoldable pub accept_platform :
      TokenService → PlatformClaims NumericDate → Err ⊎ PlatformClaims NumericDate
  unfolding with_audience
  accept_platform s c =
      if not (list_beq c.token_type (codes "platform"))
        || c.principal_id == 0
        || not (list_beq c.principal_type (codes "platform_admin"))
      then inl wrong_type
      else with_audience s c.registered.audience c

  unfoldable pub read_platform :
      TokenService → Option (Payload NumericDate) → Err ⊎ PlatformClaims NumericDate
  unfolding accept_platform platform_claims
  read_platform s none = inl invalid_token
  read_platform s (some p) = accept_platform s (platform_claims p)

  unfoldable pub parse_platform_token :
      TokenService → Time → Text → Err ⊎ PlatformClaims NumericDate
  unfolding parsed read_platform
  parse_platform_token s now token = read_platform s (parsed Kind.platform s now token)

  unfoldable pub accept_tenant :
      TokenService → TenantClaims NumericDate → Err ⊎ TenantClaims NumericDate
  unfolding with_audience
  accept_tenant s c =
      if not (list_beq c.token_type (codes "tenant")) || c.tenant_id == 0 || c.principal_id == 0
      then inl wrong_type
      else with_audience s c.registered.audience c

  unfoldable pub read_tenant :
      TokenService → Option (Payload NumericDate) → Err ⊎ TenantClaims NumericDate
  unfolding accept_tenant tenant_claims
  read_tenant s none = inl invalid_token
  read_tenant s (some p) = accept_tenant s (tenant_claims p)

  unfoldable pub parse_tenant_token : TokenService → Time → Text → Err ⊎ TenantClaims NumericDate
  unfolding parsed read_tenant
  parse_tenant_token s now token = read_tenant s (parsed Kind.tenant s now token)

  unfoldable pub accept_step_up :
      TokenService → StepUpClaims NumericDate → Err ⊎ StepUpClaims NumericDate
  unfolding with_audience
  accept_step_up s c =
      if not (list_beq c.token_type (codes "step_up")) || c.principal_id == 0 || is_empty c.scope
      then inl wrong_type
      else with_audience s c.registered.audience c

  unfoldable pub read_step_up :
      TokenService → Option (Payload NumericDate) → Err ⊎ StepUpClaims NumericDate
  unfolding accept_step_up step_up_claims
  read_step_up s none = inl invalid_token
  read_step_up s (some p) = accept_step_up s (step_up_claims p)

  unfoldable pub parse_step_up_token : TokenService → Time → Text → Err ⊎ StepUpClaims NumericDate
  unfolding parsed read_step_up
  parse_step_up_token s now token = read_step_up s (parsed Kind.step_up s now token)

  -- `time.Until(exp) < threshold`, false without an expiry.
  unfoldable pub is_expiring_soon : Registered NumericDate → Duration → Time → Bool
  is_expiring_soon r threshold now = elim (r.expires_at) [
    | none ↦ false
    | some d ↦ ltb_ℤ (sub_time (time_of d) now) threshold
  ]

  -- The clock is read when the token is signed and again when it is parsed.
  unfoldable pub self_test : TokenService → Time → Time → Option Err
  unfolding issue_platform_token parse_platform_token
  self_test s now then_at =
      elim (issue_platform_token s 999999 (codes "_selftest" ∷ []) (pos 0) now) [
        | none ↦ some sign_failed
        | some token ↦ elim (parse_platform_token s then_at token) [
          | inl e ↦ some e
          | inr c ↦
              if c.principal_id == 999999 then none else some (principal_mismatch c.principal_id)
        ]
      ]
