-- ===== src/Auth/Tests.antt =====
-- A service, its tokens, and the theorems at them.
use synapse_go.Base.{
  ◌+◌, ◌≡◌, refl, ap, ◌≢◌, ◌⊎◌, inl, inr, none, some, [], ◌∷◌, arith, pos, nat_eq, list_beq,
  text_eq, codes, rune_len, byte_len, is_space, trim, lower_rune,
}
use synapse_go.Auth.Secret.{first_match, validate_secret_strength}
use synapse_go.Auth.Claims.{
  invalid_token, wrong_type, new_token_service_with_audience, platform_payload, tenant_payload,
  step_up_payload,
}
use synapse_go.Auth.Jwt.{Kind}
use synapse_go.Auth.Tokens.{
  registered_for, new_platform_claims, issue_platform_token, new_tenant_claims, issue_tenant_token,
  new_step_up_claims, issue_step_up_token, parsed, parse_tenant_token,
}
use synapse_go.Auth.Sample.{Paper, sign_own}
use synapse_go.Auth.Fixtures.{
  svc, other_svc, clock, tok, signer, signer-Laws, now, platform_paper, platform_signed,
  tenant_paper, tenant_signed,
}
use synapse_go.Auth.RoundTrip.{expiry, parse-issue_platform, parse-issue_tenant}
use synapse_go.Auth.Kinds.{error_of, parse_error, no_confusion}

program : Unit {0}
unfolding issue_platform_token issue_tenant_token issue_step_up_token new_platform_claims
    new_tenant_claims new_step_up_claims registered_for platform_payload tenant_payload
    step_up_payload trim is_space expiry parse_error new_token_service_with_audience
    validate_secret_strength first_match lower_rune byte_len rune_len list_beq
program = tt

parse-issue_tenant_example :
    parse_tenant_token (signer tenant_paper) svc (now + 600000000000) tok ≡ inl invalid_token
unfolding program
parse-issue_tenant_example =
    parse-issue_tenant (signer tenant_paper) (signer-Laws tenant_paper) svc 4 (codes "acme") 9
      (codes "user") [] (pos 1) (some 7) now (now + 600000000000) tok (λ e. omega arith)
      (λ e. omega arith) tenant_signed

abbrev step_up_paper : Paper
step_up_paper =
    step_up_payload (new_step_up_claims clock svc 7 (codes "cargo.adjust") (pos 60000000000) now)

step_up_signed :
    issue_step_up_token (signer step_up_paper) svc 7 (codes " cargo.adjust ") (pos 60000000000) now
    ≡ inr (some tok)
unfolding program
step_up_signed = ap inr (sign_own svc.secret step_up_paper tok)

platform_read : parse_error (signer platform_paper) Kind.platform svc now tok ≡ none
unfolding program
platform_read = ap error_of (
    parse-issue_platform (signer platform_paper) (signer-Laws platform_paper) svc 7
      (codes "root" ∷ []) (pos 3) now now tok (λ e. omega arith) platform_signed)

no_confusion_example :
    let j = signer platform_paper in
    ((parsed j Kind.step_up other_svc now tok ≢ none)
      × (parse_error j Kind.step_up other_svc now tok ≡ some wrong_type))
    ⊎ ((parsed j Kind.step_up other_svc now tok ≡ none)
        × (parse_error j Kind.step_up other_svc now tok ≡ some invalid_token))
no_confusion_example =
    no_confusion (signer platform_paper) (signer-Laws platform_paper) Kind.platform Kind.step_up svc
      other_svc now tok refl platform_read (λ e. absurd (ground (arith, e)))
