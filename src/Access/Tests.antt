-- ===== src/Access/Tests.antt =====
-- The guards at concrete requests.
use synapse_go.Base.{
  ℕ, ◌≡◌, refl, ap, inl, inr, Bool, true, false, ◌&&◌, Option, none, some, [], ◌∷◌, ◌++◌, arith,
  ◌==◌, if◌then◌else◌, ℤ, pos, nat_eq, list_beq, Text, text_eq, codes, is_space, lower_rune,
  is_digit, push_word, words, fields,
}
use synapse_go.Runtimeguard.Windows.{lapse}
use synapse_go.Access.Throttle.{ip_calls, Steady, up_to, ip_calls-Steady}
use synapse_go.Runtimeguard.Redis.Sample.{cells, empty}
use synapse_go.Auth.Claims.{TenantClaims}
use synapse_go.Auth.Tokens.{registered_for, new_tenant_claims, parse_tenant_token, is_expiring_soon}
use synapse_go.Auth.RoundTrip.{expiry, parse-issue_tenant}
use synapse_go.Auth.Fixtures.{
  svc, clock, tok, signer, signer-Laws, now, platform_paper, platform_signed, tenant_paper,
  tenant_signed,
}
use synapse_go.Access.Bearer.{is_bearer, bearer_of, bearer_token}
use synapse_go.Access.Tokens.{
  token_revoked, path_mismatch, Context, aborted, next, threshold_of, version_refusal,
  admit_platform, after_platform, platform_token, admit_tenant, after_tenant, tenant_token,
}
use synapse_go.Access.Tenants.{
  tenant_of, feature_gate, require_feature, Lookup, status, StatusCache, stored, lookup_status,
  by_lookup, active_gate, require_tenant_active,
}
use synapse_go.Access.Permissions.{
  digits_value, parse_uint, parse_uint_id, tenant_claims_for_path, authorize,
  require_tenant_permission,
}
use synapse_go.Access.Admission.{admitted, issued_admitted}
use synapse_go.Access.Isolation.{tenant_isolation}

program : Unit {0}
unfolding platform_token after_platform admit_platform version_refusal admitted tenant_token
    after_tenant admit_tenant require_feature feature_gate tenant_of require_tenant_active
    active_gate lookup_status stored by_lookup require_tenant_permission tenant_claims_for_path
    authorize parse_uint_id parse_uint digits_value is_digit bearer_token bearer_of fields words
    push_word is_bearer lower_rune list_beq is_space threshold_of
program = tt

words_example : fields (codes "  a  bc ") ≡ codes "a" ∷ codes "bc" ∷ []
unfolding program
words_example = refl

abbrev request : Context ℕ
request = record {
  authorization = codes "Bearer " ++ tok;
  platform = none;
  tenant = none;
  principal_id = none;
  tenant_id = none;
  expiring_soon = false;
}

abbrev versions_at : ℤ → ℕ → Option ℤ
versions_at v principal = some v

issued_admitted_example :
    platform_token
      (signer platform_paper)
      (some (versions_at (pos 4)))
      []
      now
      now
      (some svc)
      request
    ≡ aborted 401 token_revoked
unfolding expiry
issued_admitted_example =
    issued_admitted (signer platform_paper) (signer-Laws platform_paper) svc 7 (codes "root" ∷ [])
      (pos 3) (pos 4) (versions_at (pos 4)) [] now now now tok request (λ e. omega arith)
      platform_signed refl refl

abbrev tenant_claim : TenantClaims ℕ
tenant_claim = new_tenant_claims clock svc 4 (codes "acme") 9 (codes "user") [] (pos 1) (some 7) now

abbrev in_tenant : Context ℕ
in_tenant = record request {
  tenant = some tenant_claim;
  tenant_id = some 4;
  principal_id = some 9;
  expiring_soon = true;
}

abbrev has_permission : ℕ → ℕ → Text → Option Bool
has_permission tenant principal perm = some (tenant == 4 && principal == 9)

tenant_read : parse_tenant_token (signer tenant_paper) svc now tok ≡ inr tenant_claim
unfolding new_tenant_claims registered_for expiry
tenant_read =
    parse-issue_tenant (signer tenant_paper) (signer-Laws tenant_paper) svc 4 (codes "acme") 9
      (codes "user") [] (pos 1) (some 7) now now tok (λ e. omega arith) (λ e. omega arith)
      tenant_signed

let_in :
    tenant_token (signer tenant_paper) (some (versions_at (pos 1))) [] now now (some svc) request
    ≡ next in_tenant
unfolding program new_tenant_claims registered_for is_expiring_soon
let_in =
    ap (after_tenant (signer tenant_paper) (some (versions_at (pos 1))) [] now now request)
      tenant_read

tenant_isolation_example :
    (parse_tenant_token (signer tenant_paper) svc now (bearer_token request.authorization)
      ≡ inr tenant_claim)
    × (versions_at (pos 1) tenant_claim.principal_id ≡ some tenant_claim.token_version)
    × (parse_uint_id (codes "004") ≡ some tenant_claim.tenant_id)
    × (has_permission tenant_claim.tenant_id tenant_claim.principal_id (codes "orders.read")
        ≡ some true)
unfolding program new_tenant_claims registered_for
tenant_isolation_example =
    tenant_isolation (signer tenant_paper) svc (versions_at (pos 1)) [] now now request in_tenant
      has_permission (codes "orders.read") (codes "004") tenant_claim let_in refl

foreign_path :
    require_tenant_permission in_tenant (some has_permission) (codes "orders.read") (codes "5")
    ≡ inl (403, path_mismatch)
unfolding program new_tenant_claims registered_for
foreign_path = refl

-- A cache that drops nothing.
abbrev cache : StatusCache
cache = record {
  State = ℕ → Option ℤ;
  get = λ k m. m k;
  set = λ k v m j. if k == j then some v else m j;
}

abbrev nothing_cached : ℕ → Option ℤ
nothing_cached k = none

abbrev suspended : ℕ → Lookup
suspended k = status (pos 1)

abbrev all_features : ℕ → Text → Option Bool
all_features tenant feature = some true

ip_calls-Steady_example :
    ip_calls cells (codes "192.0.2.7") (pos 2) (5 ∷ 9 ∷ 50000 ∷ 100000 ∷ []) empty
    ≡ true ∷ true ∷ false ∷ false ∷ []
unfolding lapse Steady up_to
ip_calls-Steady_example =
    ip_calls-Steady cells (codes "192.0.2.7") (pos 2) 5 (9 ∷ 50000 ∷ 100000 ∷ []) empty refl
      (omega arith, omega arith, (omega arith, omega arith, (omega arith, omega arith, tt)))
