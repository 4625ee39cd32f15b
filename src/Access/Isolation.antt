-- ===== src/Access/Isolation.antt =====
-- A tenant's token opens no other tenant's routes, and none while the tenant is suspended.
use synapse_go.Base.{
  ℕ, ◌≡◌, sym, ap, subst, ◌∙◌, ◌≢◌, ◌⊎◌, inl, inr, Bool, true, false, Option, none, some, List,
  arith, ◌==◌, Bool-cases, Option-cases, Sum-cases, ℤ, pos, nat_eq, lookup, Text, text_eq, Time,
  Duration,
}
use synapse_go.Auth.Jwt.{Jwt}
use synapse_go.Auth.Claims.{PlatformClaims, TenantClaims, TokenService}
use synapse_go.Auth.Tokens.{parse_tenant_token}
use synapse_go.Access.Bearer.{bearer_token}
use synapse_go.Access.Tokens.{tenant_suspended, Context, aborted, next, tenant_token}
use synapse_go.Access.Tenants.{
  tenant_of, feature_gate, require_feature, Lookup, status, StatusCache, CacheLaws, stored,
  lookup_status, active_gate, require_tenant_active,
}
use synapse_go.Access.Permissions.{
  parse_uint_id, tenant_claims_for_path, authorize, require_tenant_permission,
}
use synapse_go.Access.Admission.{tenant_admission}

path_of :
    {D : Type 0}
    → (c : Context D) (path : Text) (out : TenantClaims D) → tenant_claims_for_path c path ≡ inr out
    → (c.tenant ≡ some out) × (parse_uint_id path ≡ some out.tenant_id)
unfolding tenant_claims_for_path
path_of c path out h = elim (Option-cases (c.tenant)) [
  | inl nobody ↦ absurd (ground arith)
  | inr (claims, known) ↦ elim (Option-cases (parse_uint_id path)) [
    | inl bad ↦ absurd (ground arith)
    | inr (id, read) ↦ elim (Bool-cases (id == claims.tenant_id)) [
      | inl same ↦ (ground arith, ground arith)
      | inr other ↦ absurd (ground arith)
    ]
  ]
]

authorized :
    {D : Type 0}
    → (has_permission : ℕ → ℕ → Text → Option Bool) (perm : Text) (claims out : TenantClaims D)
    → authorize (some has_permission) perm claims ≡ inr out
    → (out ≡ claims) × (has_permission claims.tenant_id claims.principal_id perm ≡ some true)
unfolding authorize
authorized has_permission perm claims out h =
    elim (Option-cases (has_permission claims.tenant_id claims.principal_id perm)) [
      | inl fault ↦ absurd (ground arith)
      | inr (true, found) ↦ (ground arith, found)
      | inr (false, found) ↦ absurd (ground arith)
    ]

permitted :
    {D : Type 0}
    → (c : Context D) (has_permission : ℕ → ℕ → Text → Option Bool) (perm path : Text)
      (out : TenantClaims D)
    → require_tenant_permission c (some has_permission) perm path ≡ inr out
    → (c.tenant ≡ some out)
      × (parse_uint_id path ≡ some out.tenant_id)
      × (has_permission out.tenant_id out.principal_id perm ≡ some true)
unfolding require_tenant_permission
permitted {D = D} c has_permission perm path out h =
    elim (Sum-cases (tenant_claims_for_path c path)) [
      | inl (refused, e) ↦ absurd (ground arith)
      | inr (claims, e) ↦
          let (same, allowed) = authorized has_permission perm claims out (ground arith) in
          let (known, path_id) = path_of c path claims e in
          subst
            (λ (x : TenantClaims D).
              (c.tenant ≡ some x)
              × (parse_uint_id path ≡ some x.tenant_id)
              × (has_permission x.tenant_id x.principal_id perm ≡ some true))
            (sym same) (known, path_id, allowed)
    ]

-- A request that RequireFeature lets through is unchanged, and is a platform request or one of a
-- tenant for which the checker reports the feature as enabled.
feature_passed :
    {D : Type 0}
    → (is_enabled : ℕ → Text → Option Bool) (feature : Text) (c c' : Context D)
    → require_feature (some is_enabled) feature c ≡ next c'
    → (c' ≡ c)
      × (((claims : PlatformClaims D) × (c.platform ≡ some claims))
          ⊎ ((tenant : ℕ) × (tenant_of c ≡ some tenant) × (is_enabled tenant feature ≡ some true)))
unfolding require_feature feature_gate
feature_passed is_enabled feature c c' h = elim (Option-cases (c.platform)) [
  | inr (claims, known) ↦ (ground (arith, known), inl (claims, known))
  | inl nobody ↦ elim (Option-cases (tenant_of c)) [
    | inl nothing ↦ absurd (ground (arith, nobody, nothing))
    | inr (tenant, named) ↦ elim (Option-cases (is_enabled tenant feature)) [
      | inl fault ↦ absurd (ground (arith, nobody, named, fault))
      | inr (true, on) ↦ (ground (arith, nobody, named, on), inr (tenant, named, on))
      | inr (false, off) ↦ absurd (ground (arith, nobody, named, off))
    ]
  ]
]

module _ (J : Jwt) where
  open J use {NumericDate}

  -- A route behind TenantToken and RequireTenantPermission runs only for a bearer token that the
  -- service accepts, whose version is current, for the tenant that the path names, which is not 0,
  -- and when the authorizer allows the permission to exactly this tenant and principal.
  pub tenant_isolation :
      (s : TokenService) (versions : ℕ → Option ℤ) (warn : List Duration) (now warn_now : Time)
      (c c' : Context NumericDate) (has_permission : ℕ → ℕ → Text → Option Bool) (perm path : Text)
      (claims : TenantClaims NumericDate)
      → tenant_token J (some versions) warn now warn_now (some s) c ≡ next c'
      → require_tenant_permission c' (some has_permission) perm path ≡ inr claims
      → (parse_tenant_token J s now (bearer_token c.authorization) ≡ inr claims)
        × (versions claims.principal_id ≡ some claims.token_version)
        × (parse_uint_id path ≡ some claims.tenant_id)
        × (has_permission claims.tenant_id claims.principal_id perm ≡ some true)
  tenant_isolation s versions warn now warn_now c c' has_permission perm path claims passed ok =
      let (own, read, version, kept, _, _, _) =
        tenant_admission J s versions warn now warn_now c c' passed in
      let (known, path_id, allowed) = permitted c' has_permission perm path claims ok in
      let same : own ≡ claims = ground (arith, known, kept) in
      (
        read ∙ ap inr same,
        subst (λ (x : TenantClaims NumericDate). versions x.principal_id ≡ some x.token_version)
            same version,
        path_id,
        allowed,
      )

module _ (C : StatusCache) where
  open C use {State, get, set}

  -- A suspended tenant is refused, and the refusal is remembered: with a status other than 0 and
  -- nothing cached, the request is answered with 403, and so is the next one, whatever the lookup
  -- says by then.
  suspension_remembered :
      {D : Type 0}
      → (laws : CacheLaws C) (lookup later : ℕ → Lookup) (c : Context D) (m : State) (tenant : ℕ)
        (v : ℤ)
      → c.platform ≡ none
      → tenant_of c ≡ some tenant
      → get tenant m ≡ none
      → lookup tenant ≡ status v
      → v ≢ pos 0
      → let (r, m') = require_tenant_active C (some lookup) (some m) c in
        (r ≡ aborted 403 tenant_suspended)
        × (require_tenant_active C (some later) m' c ≡ (aborted 403 tenant_suspended, m'))
  unfolding require_tenant_active active_gate lookup_status stored
  suspension_remembered laws lookup later c m tenant v p t fresh answer bad =
      ground (arith, p, t, fresh, answer, laws.get-set tenant tenant v m)

  -- What the cache holds is what the lookup says.
  unfoldable pub Agrees : (ℕ → Lookup) → State → Type 0
  Agrees lookup m = (k : ℕ) (v : ℤ) → get k m ≡ some v → lookup k ≡ status v
