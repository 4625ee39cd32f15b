-- ===== src/Auth/Claims.antt =====
-- auth/auth.go: claims, what of them a token carries, and the token service.
use synapse_go.Base.{
  ℕ, suc, ◌*◌, ◌⊎◌, inl, inr, Option, none, some, List, [], ◌∷◌, if◌then◌else◌, ℤ, pos, negsuc,
  sub_ℕ, nat_eq, list_beq, Text, text_eq, codes, is_empty, trim_space, Cases, Duration,
}
use synapse_go.Auth.Jwt.{Registered, Payload}
use synapse_go.Auth.Secret.{Weakness, validate_secret_strength}

pub data Err : Type 0 where
  invalid_token wrong_type invalid_step_up audience_required sign_failed : Err
  weak : Weakness → Err
  principal_mismatch : ℕ → Err

abbrev pub default_audience : Text
default_audience = codes "synapse"

abbrev pub max_step_up_ttl : Duration
max_step_up_ttl = pos (5 * 60 * 1000000000)

pub record PlatformClaims (D : Type 0) : Type 0 where
  pub principal_id : ℕ
  pub principal_type : Text
  pub role_codes : List Text
  pub token_version : ℤ
  pub token_type : Text
  pub registered : Registered D

pub record TenantClaims (D : Type 0) : Type 0 where
  pub tenant_id : ℕ
  pub tenant_code : Text
  pub principal_id : ℕ
  pub principal_type : Text
  pub role_codes : List Text
  pub token_version : ℤ
  pub token_type : Text
  pub actor_principal_id : Option ℕ
  pub registered : Registered D

pub record StepUpClaims (D : Type 0) : Type 0 where
  pub principal_id : ℕ
  pub scope : Text
  pub token_type : Text
  pub registered : Registered D

-- The clock of the service is an argument of what reads it.
pub record TokenService : Type 0 where
  pub secret : Text
  pub issuer : Text
  pub audience : Text
  pub plat_ttl : Duration
  pub ten_ttl : Duration

-- `time.Duration(n) * time.Second`
unfoldable pub seconds_of : ℤ → Duration
seconds_of (pos n) = pos (n * 1000000000)
seconds_of (negsuc n) = sub_ℕ 0 (suc n * 1000000000)

unfoldable pub new_token_service_with_audience :
    Cases → Text → Text → Text → ℤ → ℤ → Err ⊎ TokenService
unfolding seconds_of
new_token_service_with_audience u secret issuer audience plat ten =
    elim (validate_secret_strength u secret) [
      | some w ↦ inl (weak w)
      | none ↦
          let trimmed = trim_space audience in
          if is_empty trimmed
          then inl audience_required
          else inr (record {
            secret = secret;
            issuer = issuer;
            audience = trimmed;
            plat_ttl = seconds_of plat;
            ten_ttl = seconds_of ten;
          })
    ]

unfoldable pub new_token_service : Cases → Text → Text → ℤ → ℤ → Err ⊎ TokenService
new_token_service u secret issuer = new_token_service_with_audience u secret issuer default_audience

unfoldable pub check_audience_compat : List Text → Text → Option Err
check_audience_compat [] expected = some invalid_token
check_audience_compat (candidate ∷ aud) expected =
    let rest = check_audience_compat aud expected in
    if list_beq candidate expected then none else rest

-- The members that a claims type marshals and those that it reads, by their tags.
unfoldable pub platform_payload : {D : Type 0} → PlatformClaims D → Payload D
platform_payload c = record {
  tenant_id = 0;
  tenant_code = [];
  principal_id = c.principal_id;
  principal_type = c.principal_type;
  role_codes = c.role_codes;
  token_version = c.token_version;
  token_type = c.token_type;
  actor_principal_id = none;
  scope = [];
  registered = c.registered;
}

unfoldable pub tenant_payload : {D : Type 0} → TenantClaims D → Payload D
tenant_payload c = record {
  tenant_id = c.tenant_id;
  tenant_code = c.tenant_code;
  principal_id = c.principal_id;
  principal_type = c.principal_type;
  role_codes = c.role_codes;
  token_version = c.token_version;
  token_type = c.token_type;
  actor_principal_id = c.actor_principal_id;
  scope = [];
  registered = c.registered;
}

unfoldable pub step_up_payload : {D : Type 0} → StepUpClaims D → Payload D
step_up_payload c = record {
  tenant_id = 0;
  tenant_code = [];
  principal_id = c.principal_id;
  principal_type = [];
  role_codes = [];
  token_version = pos 0;
  token_type = c.token_type;
  actor_principal_id = none;
  scope = c.scope;
  registered = c.registered;
}

unfoldable pub platform_claims : {D : Type 0} → Payload D → PlatformClaims D
platform_claims p = record {
  principal_id = p.principal_id;
  principal_type = p.principal_type;
  role_codes = p.role_codes;
  token_version = p.token_version;
  token_type = p.token_type;
  registered = p.registered;
}

unfoldable pub tenant_claims : {D : Type 0} → Payload D → TenantClaims D
tenant_claims p = record {
  tenant_id = p.tenant_id;
  tenant_code = p.tenant_code;
  principal_id = p.principal_id;
  principal_type = p.principal_type;
  role_codes = p.role_codes;
  token_version = p.token_version;
  token_type = p.token_type;
  actor_principal_id = p.actor_principal_id;
  registered = p.registered;
}

unfoldable pub step_up_claims : {D : Type 0} → Payload D → StepUpClaims D
step_up_claims p = record {
  principal_id = p.principal_id;
  scope = p.scope;
  token_type = p.token_type;
  registered = p.registered;
}
