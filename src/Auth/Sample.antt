-- ===== src/Auth/Sample.antt =====
-- A concrete `Jwt`: a signer that knows one key and one payload.
use synapse_go.Base.{
  ℕ, ◌*◌, ◌/◌, ◌≡◌, refl, sym, ap, subst, ◌∙◌, inl, inr, Bool, true, false, ◌&&◌, Option, none,
  some, [], arith, ◌==◌, ltb, if◌then◌else◌, Bool-cases, Option-cases, All, eq_ℤ, eq_ℤ_refl,
  eq_of_eq_ℤ, nat_eq, beq_refl, list_beq, list_beq_iff, Text, text_eq, is_empty, is_space, Time,
}
use synapse_go.Auth.Jwt.{Registered, Payload, Jwt, unexpired, Laws}

option_beq : Option ℕ → Option ℕ → Bool
option_beq none none = true
option_beq (some a) (some b) = a == b
option_beq _ _ = false

option_beq→eq : (a b : Option ℕ) → option_beq a b ≡ true → a ≡ b
unfolding option_beq
option_beq→eq none none h = refl
option_beq→eq none (some b) h = absurd (ground arith)
option_beq→eq (some a) none h = absurd (ground arith)
option_beq→eq (some a) (some b) h = ground arith

option_beq_refl : (a : Option ℕ) → option_beq a a ≡ true
unfolding option_beq
option_beq_refl none = refl
option_beq_refl (some a) = ground arith

abbrev pub Paper : Type 0
Paper = Payload ℕ

unfoldable registered_beq : Registered ℕ → Registered ℕ → Bool
unfolding option_beq
registered_beq p q =
    list_beq p.issuer q.issuer
    && list_beq p.audience q.audience
    && option_beq p.issued_at q.issued_at
    && option_beq p.expires_at q.expires_at

registered_beq→eq : (p q : Registered ℕ) → registered_beq p q ≡ true → p ≡ q
unfolding registered_beq
registered_beq→eq p q h = ground (
  arith,
  list_beq_iff p.issuer q.issuer,
  list_beq_iff p.audience q.audience,
  option_beq→eq p.issued_at q.issued_at,
  option_beq→eq p.expires_at q.expires_at,
)

unfoldable payload_beq : Paper → Paper → Bool
unfolding option_beq registered_beq
payload_beq p q =
    p.tenant_id == q.tenant_id
    && list_beq p.tenant_code q.tenant_code
    && p.principal_id == q.principal_id
    && list_beq p.principal_type q.principal_type
    && list_beq p.role_codes q.role_codes
    && eq_ℤ p.token_version q.token_version
    && list_beq p.token_type q.token_type
    && option_beq p.actor_principal_id q.actor_principal_id
    && list_beq p.scope q.scope
    && registered_beq p.registered q.registered

payload_beq→eq : (p q : Paper) → payload_beq p q ≡ true → p ≡ q
unfolding payload_beq
payload_beq→eq p q h = ground (
  arith,
  list_beq_iff p.tenant_code q.tenant_code,
  list_beq_iff p.principal_type q.principal_type,
  list_beq_iff p.role_codes q.role_codes,
  eq_of_eq_ℤ p.token_version q.token_version,
  list_beq_iff p.token_type q.token_type,
  option_beq→eq p.actor_principal_id q.actor_principal_id,
  list_beq_iff p.scope q.scope,
  registered_beq→eq p.registered q.registered,
)

abbrev token_type_of : Option Paper → Text
token_type_of none = []
token_type_of (some p) = p.token_type

module _ (key : Text) (payload : Paper) (token : Text) where
  unfoldable pub sign_one : Text → Paper → Option Text
  unfolding payload_beq
  sign_one k p = if list_beq k key && payload_beq p payload then some token else none

  unfoldable live : Time → Bool
  live now = elim (payload.registered.expires_at) [
    | none ↦ true
    | some d ↦ ltb now (d * 1000000000)
  ]

  unfoldable pub parse_one : Option Text → Time → Text → Option Paper
  unfolding live
  parse_one none now t = none
  parse_one (some k) now t =
      if list_beq k key && list_beq t token && live now then some payload else none

  abbrev pub one_token : Jwt
  one_token = record {
    NumericDate = ℕ;
    numeric_date = λ t. t / 1000000000;
    time_of = λ d. d * 1000000000;
    sign = sign_one;
    is_hmac = λ t. list_beq t token;
    parse = λ k. parse_one;
  }

  pub sign_own : sign_one key payload ≡ some token
  unfolding sign_one payload_beq registered_beq
  sign_own = ground (
    arith,
    beq_refl {A = Text} key,
    beq_refl {A = Text} payload.tenant_code,
    beq_refl {A = Text} payload.principal_type,
    list_beq_iff payload.role_codes payload.role_codes,
    eq_ℤ_refl payload.token_version,
    beq_refl {A = Text} payload.token_type,
    option_beq_refl payload.actor_principal_id,
    beq_refl {A = Text} payload.scope,
    beq_refl {A = Text} payload.registered.issuer,
    list_beq_iff payload.registered.audience payload.registered.audience,
    option_beq_refl payload.registered.issued_at,
    option_beq_refl payload.registered.expires_at,
  )

  signed :
      (k t : Text) (p : Paper) → sign_one k p ≡ some t → (k ≡ key) × (p ≡ payload) × (t ≡ token)
  unfolding sign_one
  signed k t p h = elim (Bool-cases (list_beq k key && payload_beq p payload)) [
    | inr otherwise ↦ absurd (ground arith)
    | inl matching ↦
        (ground (arith, list_beq_iff k key), payload_beq→eq p payload (ground arith), ground arith)
  ]

  read_own :
      (now : Time)
      → parse_one (some key) now token
        ≡ (if unexpired one_token now payload.registered.expires_at then some payload else none)
  unfolding parse_one live unexpired
  read_own now = ground (
    arith,
    beq_refl {A = Text} key,
    beq_refl {A = Text} token,
    Option-cases (payload.registered.expires_at),
  )

  pub one_token-Laws : is_empty token ≡ false → All (λ c. is_space c ≡ false) token → Laws one_token
  unfolding parse_one live unexpired
  one_token-Laws e w = record {
    numeric_date_le = λ t. omega arith;
    numeric_date_lt = λ t. omega arith;
    parse_no_key = λ k now t. refl;
    parse-token_type =
        λ k j x now t p q a b. ap (λ (o : Option Paper). token_type_of o) (sym a ∙ b);
    sign-is_hmac = λ k t p h.
        subst (λ x. list_beq x token ≡ true) (sym (signed k t p h).2) (beq_refl {A = Text} token);
    sign-is_word = λ k t p h.
        subst (λ x. (is_empty x ≡ false) × All (λ c. is_space c ≡ false) x) (sym (signed k t p h).2)
          (e, w);
    parse-sign = λ j k t p now h. read k t p now (signed k t p h);
  }
    where
      read :
          (k t : Text) (p : Paper) (now : Time)
          → (k ≡ key) × (p ≡ payload) × (t ≡ token)
          → parse_one (some k) now t
            ≡ (if unexpired one_token now p.registered.expires_at then some p else none)
      read k t p now (a, b, c) =
          subst
            (λ x.
              parse_one (some x) now t
              ≡ (if unexpired one_token now p.registered.expires_at then some p else none))
            (sym a)
            (subst
              (λ x.
                parse_one (some key) now x
                ≡ (if unexpired one_token now p.registered.expires_at then some p else none))
              (sym c)
              (subst
                (λ (x : Paper).
                  parse_one (some key) now token
                  ≡ (if unexpired one_token now x.registered.expires_at then some x else none))
                (sym b) (read_own now)))
