-- ===== src/Auth/RoundTrip.antt =====
-- A token that is issued is read back, by the service that it was issued for and until it expires.
use synapse_go.Base.{
  ℕ, ◌+◌, ◌≤◌, ◌≡◌, refl, ap, ◌∙◌, ◌≢◌, inl, inr, false, Option, none, some, List, [], ◌∷◌, arith,
  ◌==◌, ltb, if◌then◌else◌, ap-if, ℤ, pos, ltb_ℤ, nonpos, nat_eq, beq_refl, beq_false, list_beq,
  Text, text_eq, codes, is_empty, trim_space, Time, Duration, add_time,
}
use synapse_go.Auth.Jwt.{Payload, Kind, Jwt, unexpired, Laws}
use synapse_go.Auth.Claims.{
  invalid_token, max_step_up_ttl, TokenService, check_audience_compat, platform_payload,
  tenant_payload, step_up_payload, platform_claims, tenant_claims, step_up_claims,
}
use synapse_go.Auth.Tokens.{
  registered_for, new_platform_claims, issue_platform_token, new_tenant_claims, issue_tenant_token,
  new_step_up_claims, issue_step_up_token, key_func, parsed, with_audience, accept_platform,
  read_platform, parse_platform_token, accept_tenant, read_tenant, parse_tenant_token,
  accept_step_up, read_step_up, parse_step_up_token, self_test,
}

module _ (J : Jwt) where
  open J use {NumericDate, numeric_date, time_of, sign, is_hmac, parse}

  -- The instant at which a token issued now for this long stops being accepted.
  unfoldable pub expiry : Duration → Time → Time
  expiry ttl now = time_of (numeric_date (add_time now ttl))

  -- A signed payload, as a service with the same key reads it.
  parsed-sign :
      (laws : Laws J) (k : Kind) (s t : TokenService) (p : Payload NumericDate) (token : Text)
      (now : Time)
      → t.secret ≡ s.secret
      → sign s.secret p ≡ some token
      → parsed J k t now token ≡ (if unexpired J now p.registered.expires_at then some p else none)
  unfolding parsed key_func
  parsed-sign laws k s t p token now same made =
      ap (λ h. parse k (if h then some t.secret else none) now token)
        (laws.sign-is_hmac s.secret token p made)
      ∙ ap (λ x. parse k (some x) now token) same
      ∙ laws.parse-sign k s.secret token p now made

  own_audience : (s : TokenService) → check_audience_compat (s.audience ∷ []) s.audience ≡ none
  unfolding check_audience_compat
  own_audience s = ground (arith, beq_refl {A = Text} s.audience)

  other_audience : (a b : Text) → a ≢ b → check_audience_compat (a ∷ []) b ≡ some invalid_token
  unfolding check_audience_compat
  other_audience a b d = ground (arith, beq_false {A = Text} a b d)

  nonzero : (n : ℕ) → n ≢ 0 → (n == 0) ≡ false
  nonzero n d = ground arith

  platform_accepted :
      (s : TokenService) (principal : ℕ) (roles : List Text) (version : ℤ) (now : Time)
      → principal ≢ 0
      → accept_platform J s (new_platform_claims J s principal roles version now)
        ≡ inr (new_platform_claims J s principal roles version now)
  unfolding accept_platform with_audience new_platform_claims registered_for list_beq
  platform_accepted s principal roles version now d =
      ground (arith, nonzero principal d, own_audience s)

  -- A platform token is read back as the claims that were signed at every time before its expiry,
  -- and is invalid from then on. The principal is not 0.
  pub parse-issue_platform :
      (laws : Laws J) (s : TokenService) (principal : ℕ) (roles : List Text) (version : ℤ)
      (now at : Time) (token : Text)
      → principal ≢ 0
      → issue_platform_token J s principal roles version now ≡ some token
      → parse_platform_token J s at token ≡ (
          if ltb at (expiry s.plat_ttl now)
          then inr (new_platform_claims J s principal roles version now)
          else inl invalid_token)
  unfolding issue_platform_token parse_platform_token read_platform platform_payload platform_claims
      expiry unexpired new_platform_claims registered_for
  parse-issue_platform laws s principal roles version now at token d made =
      let c = new_platform_claims J s principal roles version now in
      let live = ltb at (expiry s.plat_ttl now) in
      ap (read_platform J s)
        (parsed-sign laws Kind.platform s s (platform_payload c) token at refl made)
      ∙ ap-if (read_platform J s) live (some (platform_payload c)) none
      ∙ ap (λ x. if live then x else inl invalid_token)
          (platform_accepted s principal roles version now d)

  tenant_accepted :
      (s : TokenService) (tenant : ℕ) (code : Text) (principal : ℕ) (kind : Text)
      (roles : List Text) (version : ℤ) (actor : Option ℕ) (now : Time)
      → tenant ≢ 0
      → principal ≢ 0
      → let c = new_tenant_claims J s tenant code principal kind roles version actor now in
        accept_tenant J s c ≡ inr c
  unfolding accept_tenant with_audience new_tenant_claims registered_for list_beq
  tenant_accepted s tenant code principal kind roles version actor now t d =
      ground (arith, nonzero tenant t, nonzero principal d, own_audience s)

  -- A tenant token is read back as the claims that were signed, the acting principal included, at
  -- every time before its expiry, and is invalid from then on. Tenant and principal are not 0.
  pub parse-issue_tenant :
      (laws : Laws J) (s : TokenService) (tenant : ℕ) (code : Text) (principal : ℕ) (kind : Text)
      (roles : List Text) (version : ℤ) (actor : Option ℕ) (now at : Time) (token : Text)
      → tenant ≢ 0
      → principal ≢ 0
      → issue_tenant_token J s tenant code principal kind roles version actor now ≡ some token
      → parse_tenant_token J s at token ≡ (
          if ltb at (expiry s.ten_ttl now)
          then inr (new_tenant_claims J s tenant code principal kind roles version actor now)
          else inl invalid_token)
  unfolding issue_tenant_token parse_tenant_token read_tenant tenant_payload tenant_claims expiry
      unexpired new_tenant_claims registered_for
  parse-issue_tenant laws s tenant code principal kind roles version actor now at token t d made =
      let c = new_tenant_claims J s tenant code principal kind roles version actor now in
      let live = ltb at (expiry s.ten_ttl now) in
      ap (read_tenant J s) (parsed-sign laws Kind.tenant s s (tenant_payload c) token at refl made)
      ∙ ap-if (read_tenant J s) live (some (tenant_payload c)) none
      ∙ ap (λ x. if live then x else inl invalid_token)
          (tenant_accepted s tenant code principal kind roles version actor now t d)

  granted_step_up :
      (s : TokenService) (principal : ℕ) (scope : Text) (ttl : Duration) (now : Time) (token : Text)
      → issue_step_up_token J s principal scope ttl now ≡ inr (some token)
      → ((principal == 0) ≡ false)
        × (is_empty (trim_space scope) ≡ false)
        × (nonpos ttl ≡ false)
        × (ltb_ℤ max_step_up_ttl ttl ≡ false)
        × (sign s.secret
              (step_up_payload (new_step_up_claims J s principal (trim_space scope) ttl now))
            ≡ some token)
  unfolding issue_step_up_token
  granted_step_up s principal scope ttl now token made = ground arith

  step_up_accepted :
      (s : TokenService) (principal : ℕ) (scope : Text) (ttl : Duration) (now : Time)
      → (principal == 0) ≡ false
      → is_empty scope ≡ false
      → accept_step_up J s (new_step_up_claims J s principal scope ttl now)
        ≡ inr (new_step_up_claims J s principal scope ttl now)
  unfolding accept_step_up with_audience new_step_up_claims registered_for list_beq
  step_up_accepted s principal scope ttl now d e = ground (arith, d, e, own_audience s)

  expiry_le :
      (laws : Laws J) (ttl : Duration) (now : Time)
      → ltb_ℤ max_step_up_ttl ttl ≡ false
      → expiry ttl now ≤ now + 300000000000
  unfolding expiry
  expiry_le laws ttl now h = ground (arith, laws.numeric_date_le (add_time now ttl))

  -- A step-up token that is issued carries the trimmed scope, which is not empty, is read back as
  -- such before its expiry and is invalid from then on; and its expiry is five minutes after the
  -- issue at the latest.
  parse-issue_step_up :
      (laws : Laws J) (s : TokenService) (principal : ℕ) (scope : Text) (ttl : Duration)
      (now at : Time) (token : Text)
      → issue_step_up_token J s principal scope ttl now ≡ inr (some token)
      → (parse_step_up_token J s at token ≡ (
          if ltb at (expiry ttl now)
          then inr (new_step_up_claims J s principal (trim_space scope) ttl now)
          else inl invalid_token))
        × (is_empty (trim_space scope) ≡ false)
        × (expiry ttl now ≤ now + 300000000000)
  unfolding parse_step_up_token read_step_up step_up_payload step_up_claims expiry unexpired
      new_step_up_claims registered_for
  parse-issue_step_up laws s principal scope ttl now at token made =
      let (d, e, _, short, signed) = granted_step_up s principal scope ttl now token made in
      let c = new_step_up_claims J s principal (trim_space scope) ttl now in
      let live = ltb at (expiry ttl now) in
      (
        ap (read_step_up J s)
              (parsed-sign laws Kind.step_up s s (step_up_payload c) token at refl signed)
            ∙ ap-if (read_step_up J s) live (some (step_up_payload c)) none
            ∙ ap (λ x. if live then x else inl invalid_token)
                (step_up_accepted s principal (trim_space scope) ttl now d e),
        e,
        expiry_le laws ttl now short,
      )

  -- A service with the same key and another audience accepts no platform token of this one.
  foreign_audience_refused :
      (laws : Laws J) (s t : TokenService) (principal : ℕ) (roles : List Text) (version : ℤ)
      (now at : Time) (token : Text)
      → t.secret ≡ s.secret
      → s.audience ≢ t.audience
      → principal ≢ 0
      → issue_platform_token J s principal roles version now ≡ some token
      → parse_platform_token J t at token ≡ inl invalid_token
  unfolding issue_platform_token parse_platform_token read_platform accept_platform with_audience
      platform_payload platform_claims unexpired new_platform_claims registered_for list_beq
  foreign_audience_refused laws s t principal roles version now at token same other d made =
      let c = new_platform_claims J s principal roles version now in
      ap (read_platform J t)
        (parsed-sign laws Kind.platform s t (platform_payload c) token at same made)
      ∙ ground (arith, nonzero principal d, other_audience s.audience t.audience other)

  -- The self-test of a service that can sign succeeds when the clock that the parser reads is
  -- before the expiry of the token, and else reports an invalid token.
  self_test_lem :
      (laws : Laws J) (s : TokenService) (now at : Time) (token : Text)
      → issue_platform_token J s 999999 (codes "_selftest" ∷ []) (pos 0) now ≡ some token
      → self_test J s now at ≡ (if ltb at (expiry s.plat_ttl now) then none else some invalid_token)
  unfolding self_test
  self_test_lem laws s now at token made =
      let read =
        parse-issue_platform laws s 999999 (codes "_selftest" ∷ []) (pos 0) now at token
          (λ e. omega arith) made in
      ground (arith, made, read)
