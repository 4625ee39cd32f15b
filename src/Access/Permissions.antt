-- ===== src/Access/Permissions.antt =====
-- middleware/permission.go: the tenant of the path, and a permission in it.
use synapse_go.Base.{
  ℕ, ◌+◌, ◌-◌, ◌*◌, ◌^◌, ◌⊎◌, inl, inr, Bool, Option, none, some, [], ◌∷◌, ◌==◌, ltb, if◌then◌else◌,
  nat_eq, Text, text_eq, is_digit,
}
use synapse_go.Auth.Claims.{TenantClaims}
use synapse_go.Access.Tokens.{
  Reason, tenant_token_required, check_failed, path_mismatch, permission_denied, Context,
}

-- The number that digits stand for, after those that have been read; `none` at another character.
unfoldable pub digits_value : Text → ℕ → Option ℕ
unfolding is_digit
digits_value [] n = some n
digits_value (c ∷ s) n =
    let rest = digits_value s (n * 10 + (c - b'0')) in if is_digit c then rest else none

-- `strconv.ParseUint(v, 10, 64)`, `none` for an error.
unfoldable pub parse_uint : Text → Option ℕ
unfolding digits_value
parse_uint [] = none
parse_uint (c ∷ s) = elim (digits_value (c ∷ s) 0) [
  | none ↦ none
  | some n ↦ if ltb n (2 ^ 64) then some n else none
]

unfoldable pub parse_uint_id : Text → Option ℕ
unfolding parse_uint
parse_uint_id v = elim (parse_uint v) [ none ↦ none | some n ↦ if n == 0 then none else some n ]

-- A refusal is a status and a reason; `path` is the value of the path parameter.
unfoldable pub tenant_claims_for_path :
    {D : Type 0} → Context D → Text → (ℕ × Reason) ⊎ TenantClaims D
unfolding parse_uint_id
tenant_claims_for_path c path = elim (c.tenant) [
  | none ↦ inl (401, tenant_token_required)
  | some claims ↦ elim (parse_uint_id path) [
    | none ↦ inl (403, path_mismatch)
    | some id ↦ if id == claims.tenant_id then inr claims else inl (403, path_mismatch)
  ]
]

-- `none` of the authorizer's answer is an error.
unfoldable pub authorize :
    {D : Type 0}
    → Option (ℕ → ℕ → Text → Option Bool)
    → Text
    → TenantClaims D
    → (ℕ × Reason) ⊎ TenantClaims D
authorize none perm claims = inl (403, permission_denied)
authorize (some has_permission) perm claims =
    elim (has_permission claims.tenant_id claims.principal_id perm) [
      | none ↦ inl (500, check_failed)
      | some allowed ↦ if allowed then inr claims else inl (403, permission_denied)
    ]

unfoldable pub require_tenant_permission :
    {D : Type 0}
    → Context D
    → Option (ℕ → ℕ → Text → Option Bool)
    → Text
    → Text
    → (ℕ × Reason) ⊎ TenantClaims D
unfolding tenant_claims_for_path authorize
require_tenant_permission c authz perm path = elim (tenant_claims_for_path c path) [
  | inl refused ↦ inl refused
  | inr claims ↦ authorize authz perm claims
]
