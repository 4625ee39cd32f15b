-- ===== src/Access/Tenants.antt =====
-- middleware/platform.go: RequireFeature and RequireTenantActive.
use synapse_go.Base.{
  ℕ, zero, suc, ◌≡◌, Bool, Option, none, some, ◌==◌, if◌then◌else◌, ℤ, pos, negsuc, nat_eq, lookup,
  Text, text_eq,
}
use synapse_go.Access.Tokens.{
  tenant_token_required, check_unavailable, check_failed, feature_disabled, tenant_gone,
  tenant_suspended, Context, Gate, aborted, next,
}

-- The tenant claims of a request, if they name a tenant.
unfoldable pub tenant_of : {D : Type 0} → Context D → Option ℕ
tenant_of c = elim (c.tenant) [
  | none ↦ none
  | some claims ↦ if claims.tenant_id == 0 then none else some claims.tenant_id
]

-- `none` of the checker's answer is an error.
unfoldable pub feature_gate :
    {D : Type 0} → Option (ℕ → Text → Option Bool) → Text → ℕ → Context D → Gate D
feature_gate none feature tenant c = aborted 500 check_unavailable
feature_gate (some is_enabled) feature tenant c = elim (is_enabled tenant feature) [
  | none ↦ aborted 500 check_failed
  | some enabled ↦ if enabled then next c else aborted 403 feature_disabled
]

unfoldable pub require_feature :
    {D : Type 0} → Option (ℕ → Text → Option Bool) → Text → Context D → Gate D
unfolding feature_gate
require_feature svc feature c = elim (c.platform) [
  | some claims ↦ next c
  | none ↦ elim (tenant_of c) [
    | none ↦ aborted 401 tenant_token_required
    | some tenant ↦ feature_gate svc feature tenant c
  ]
]

-- The answer of `TenantStatusLookup`, where an error is `ErrTenantGone` or another.
pub data Lookup : Type 0 where
  status : ℤ → Lookup
  gone failed : Lookup

-- `StatusCache`, an interface of which the source has no implementation here.
pub record StatusCache : Type 1 where
  pub State : Type 0
  pub get : ℕ → State → Option ℤ
  pub set : ℕ → ℤ → State → State

-- A value that is set is read until the cache drops it.
pub record CacheLaws (C : StatusCache) : Type 0 where
  pub get-set :
      (k j : ℕ) (v : ℤ) (m : C.State)
      → C.get j (C.set k v m) ≡ (if k == j then some v else C.get j m)

module _ (C : StatusCache) where
  open C use {State, get, set}

  unfoldable pub stored : Lookup → ℕ → State → State
  stored (status v) tenant m = set tenant v m
  stored gone tenant m = m
  stored failed tenant m = m

  -- The cache is `none` where the source has a nil cache.
  unfoldable pub lookup_status : (ℕ → Lookup) → Option State → ℕ → Lookup × Option State
  unfolding stored
  lookup_status lookup none tenant = (lookup tenant, none)
  lookup_status lookup (some m) tenant = elim (get tenant m) [
    | some v ↦ (status v, some m)
    | none ↦ (lookup tenant, some (stored (lookup tenant) tenant m))
  ]

  unfoldable pub by_lookup : {D : Type 0} → Lookup → Context D → Gate D
  by_lookup gone c = aborted 403 tenant_gone
  by_lookup failed c = aborted 500 check_failed
  by_lookup (status (pos zero)) c = next c
  by_lookup (status (pos (suc n))) c = aborted 403 tenant_suspended
  by_lookup (status (negsuc n)) c = aborted 403 tenant_suspended

  unfoldable pub active_gate :
      {D : Type 0} → Option (ℕ → Lookup) → Option State → ℕ → Context D → Gate D × Option State
  unfolding lookup_status by_lookup
  active_gate none m tenant c = (aborted 500 check_unavailable, m)
  active_gate (some lookup) m tenant c =
      let (answer, m') = lookup_status lookup m tenant in (by_lookup answer c, m')

  unfoldable pub require_tenant_active :
      {D : Type 0} → Option (ℕ → Lookup) → Option State → Context D → Gate D × Option State
  unfolding active_gate
  require_tenant_active lookup m c = elim (c.platform) [
    | some claims ↦ (next c, m)
    | none ↦ elim (tenant_of c) [
      | none ↦ (aborted 401 tenant_token_required, m)
      | some tenant ↦ active_gate lookup m tenant c
    ]
  ]
