-- ===== src/Auth/Fixtures.antt =====
-- A service, a signer and two tokens, for the tests here and of the guards.
use synapse_go.Base.{
  ℕ, ◌≡◌, refl, false, none, some, [], ◌∷◌, All, pos, nat_eq, Text, text_eq, codes, is_space, Time,
}
use synapse_go.Auth.Jwt.{Jwt, Laws}
use synapse_go.Auth.Claims.{PlatformClaims, TokenService, platform_payload, tenant_payload}
use synapse_go.Auth.Tokens.{
  registered_for, new_platform_claims, issue_platform_token, new_tenant_claims, issue_tenant_token,
}
use synapse_go.Auth.Sample.{Paper, one_token, sign_own, one_token-Laws}

abbrev pub svc : TokenService
svc = record {
  secret = codes "0123456789abcdef0123456789abcdef";
  issuer = codes "platform";
  audience = codes "synapse";
  plat_ttl = pos 3600000000000;
  ten_ttl = pos 600000000000;
}

abbrev pub other_svc : TokenService
other_svc = record svc { audience = codes "cargo" }

-- The signer before it has signed anything gives the dates.
abbrev pub clock : Jwt
clock = one_token [] (platform_payload (blank_claims)) []
  where
    blank_claims : PlatformClaims ℕ
    blank_claims = record {
      principal_id = 0;
      principal_type = [];
      role_codes = [];
      token_version = pos 0;
      token_type = [];
      registered = record { issuer = []; audience = []; issued_at = none; expires_at = none };
    }

abbrev pub tok : Text
tok = codes "head.body.sig"

abbrev pub signer : Paper → Jwt
signer p = one_token svc.secret p tok

tok-word : All (λ c. is_space c ≡ false) tok
unfolding is_space
tok-word = (
  refl,
  (
    refl,
    (refl, (refl, (refl, (refl, (refl, (refl, (refl, (refl, (refl, (refl, (refl, tt))))))))))),
  ),
)

pub signer-Laws : (p : Paper) → Laws (signer p)
signer-Laws p = one_token-Laws svc.secret p tok refl tok-word

abbrev pub now : Time
now = 1000000000000

abbrev pub platform_paper : Paper
platform_paper = platform_payload (new_platform_claims clock svc 7 (codes "root" ∷ []) (pos 3) now)

pub platform_signed :
    issue_platform_token (signer platform_paper) svc 7 (codes "root" ∷ []) (pos 3) now ≡ some tok
unfolding issue_platform_token issue_tenant_token new_platform_claims new_tenant_claims
    registered_for platform_payload tenant_payload
platform_signed = sign_own svc.secret platform_paper tok

abbrev pub tenant_paper : Paper
tenant_paper =
    tenant_payload
      (new_tenant_claims clock svc 4 (codes "acme") 9 (codes "user") [] (pos 1) (some 7) now)

pub tenant_signed :
    issue_tenant_token
      (signer tenant_paper)
      svc
      4
      (codes "acme")
      9
      (codes "user")
      []
      (pos 1)
      (some 7)
      now
    ≡ some tok
unfolding issue_platform_token issue_tenant_token new_platform_claims new_tenant_claims
    registered_for platform_payload tenant_payload
tenant_signed = sign_own svc.secret tenant_paper tok
