-- ===== src/Access/Tokens.antt =====
-- middleware/platform.go: PlatformToken and TenantToken. A handler answers by passing the context
-- on or by aborting with a status and a reason.
use synapse_go.Base.{
  ℕ, ◌*◌, ◌⊎◌, inl, inr, Bool, ◌||◌, Option, none, some, List, [], ◌∷◌, if◌then◌else◌, ℤ, pos,
  nonpos, eq_ℤ, nat_eq, lookup, Text, text_eq, is_empty, Time, Duration,
}
use synapse_go.Auth.Jwt.{Jwt}
use synapse_go.Auth.Claims.{Err, PlatformClaims, TenantClaims, TokenService}
use synapse_go.Auth.Tokens.{parse_platform_token, parse_tenant_token, is_expiring_soon}
use synapse_go.Access.Bearer.{bearer_token}

pub data Reason : Type 0 where
  token_required token_invalid token_unavailable token_revoked : Reason
  tenant_token_required check_unavailable check_failed : Reason
  feature_disabled tenant_gone tenant_suspended : Reason
  path_mismatch permission_denied : Reason

-- What the guards read and write of a request: the header, and the values of the context.
pub record Context (D : Type 0) : Type 0 where
  pub authorization : Text
  pub platform : Option (PlatformClaims D)
  pub tenant : Option (TenantClaims D)
  pub principal_id : Option ℕ
  pub tenant_id : Option ℕ
  pub expiring_soon : Bool  -- the response header X-Token-Expiring-Soon

pub data Gate (D : Type 0) : Type 0 where
  aborted : ℕ → Reason → Gate D
  next : Context D → Gate D

abbrev pub default_expiry_warn_threshold : Duration
default_expiry_warn_threshold = pos (30 * 60 * 1000000000)

unfoldable pub threshold_of : List Duration → Duration
threshold_of [] = default_expiry_warn_threshold
threshold_of (d ∷ ds) = if nonpos d then default_expiry_warn_threshold else d

-- `none` of the lookup is an error.
unfoldable pub version_refusal : Option (ℕ → Option ℤ) → ℕ → ℤ → Option Reason
version_refusal none principal version = none
version_refusal (some lookup) principal version = elim (lookup principal) [
  | none ↦ some token_unavailable
  | some current ↦ if eq_ℤ version current then none else some token_revoked
]

module _ (J : Jwt) where
  open J use {NumericDate}

  -- The clock is read when the token is parsed, and again for the warning.
  module _ (lookup : Option (ℕ → Option ℤ)) (warn : List Duration) (now warn_now : Time) where
    unfoldable pub admit_platform :
        Context NumericDate → PlatformClaims NumericDate → Gate NumericDate
    unfolding version_refusal threshold_of
    admit_platform c claims =
        elim (version_refusal lookup claims.principal_id claims.token_version) [
          | some r ↦ aborted 401 r
          | none ↦ next (record c {
            principal_id = some claims.principal_id;
            platform = some claims;
            expiring_soon =
                c.expiring_soon
                || is_expiring_soon J claims.registered (threshold_of warn) warn_now;
          })
        ]

    unfoldable pub after_platform :
        Context NumericDate → Err ⊎ PlatformClaims NumericDate → Gate NumericDate
    unfolding admit_platform
    after_platform c (inl e) = aborted 401 token_invalid
    after_platform c (inr claims) = admit_platform c claims

    unfoldable pub platform_token : Option TokenService → Context NumericDate → Gate NumericDate
    unfolding after_platform
    platform_token none c = aborted 401 token_required
    platform_token (some s) c =
        let token = bearer_token c.authorization in
        if is_empty token
        then aborted 401 token_required
        else after_platform c (parse_platform_token J s now token)

    unfoldable pub admit_tenant : Context NumericDate → TenantClaims NumericDate → Gate NumericDate
    unfolding version_refusal threshold_of
    admit_tenant c claims = elim (version_refusal lookup claims.principal_id claims.token_version) [
      | some r ↦ aborted 401 r
      | none ↦ next (record c {
        tenant_id = some claims.tenant_id;
        principal_id = some claims.principal_id;
        tenant = some claims;
        expiring_soon =
            c.expiring_soon || is_expiring_soon J claims.registered (threshold_of warn) warn_now;
      })
    ]

    unfoldable pub after_tenant :
        Context NumericDate → Err ⊎ TenantClaims NumericDate → Gate NumericDate
    unfolding admit_tenant
    after_tenant c (inl e) = aborted 401 token_invalid
    after_tenant c (inr claims) = admit_tenant c claims

    unfoldable pub tenant_token : Option TokenService → Context NumericDate → Gate NumericDate
    unfolding after_tenant
    tenant_token none c = aborted 401 token_required
    tenant_token (some s) c =
        let token = bearer_token c.authorization in
        if is_empty token
        then aborted 401 token_required
        else after_tenant c (parse_tenant_token J s now token)

-- PlatformPrincipal
unfoldable pub platform_principal : {D : Type 0} → Context D → ℕ × Text
platform_principal c = elim (c.platform) [
  | none ↦ (0, [])
  | some claims ↦ (claims.principal_id, claims.principal_type)
]
