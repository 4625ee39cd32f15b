-- ===== src/Webhook/Signed.antt =====
-- Headers that verify.
use synapse_go.Base.{
  ℕ, ◌+◌, ◌/◌, ◌^◌, ◌≤◌, ◌<◌, ◌≡◌, refl, sym, ap, ◌∙◌, ◌≢◌, ◌⊎◌, inl, inr, Bool, true, false, ◌&&◌,
  none, arith, Bool-cases, Sum-cases, ℤ, pos, ◌-ℤ◌, ◌≤ℤ◌, ◌<ℤ◌, ltb_ℤ, leb_ℤ, ltb_ℤ_false, nat_eq,
  list_beq, list_beq_iff, Text, text_eq, is_empty, trim_space, Time, Duration, seconds, format_int,
}
use synapse_go.Webhook.{
  Err, decodes, parse_header, max_duration, min_duration, abs_duration, nanoseconds_since,
  saturated, since_unix, compute_signature, sign_header, verify_parsed, verify_header,
}
use synapse_go.Webhook.Header.{written, parse_written}

abs_within :
    (a b tolerance : ℕ)
    → b ≤ a + tolerance
    → a ≤ b + tolerance
    → ltb_ℤ (pos tolerance) (abs_duration (saturated (pos a -ℤ (pos b -ℤ pos 0)))) ≡ false
unfolding abs_duration saturated ◌-ℤ◌
abs_within a b tolerance early late = ground arith

skewed : Duration → Duration → Bool
skewed tolerance d = ltb_ℤ (pos 0) tolerance && ltb_ℤ tolerance (abs_duration d)

not_skewed :
    (tolerance d : Duration)
    → skewed tolerance d ≡ false
    → (tolerance ≤ℤ pos 0) ⊎ (ltb_ℤ tolerance (abs_duration d) ≡ false)
unfolding skewed
not_skewed tolerance d h = elim (Bool-cases (ltb_ℤ (pos 0) tolerance)) [
  | inl positive ↦ inr (rw positive at h)
  | inr zero_or_less ↦ inl (ltb_ℤ_false (pos 0) tolerance zero_or_less)
]

-- Within the tolerance on both sides, or beyond the range of a Duration ahead.
unfoldable pub IsClose : ℤ → ℤ → Type 0
IsClose tolerance d = ((pos 0 -ℤ tolerance ≤ℤ d) × (d ≤ℤ tolerance)) ⊎ (d ≤ℤ min_duration)

saturated-IsClose :
    (tolerance d : ℤ)
    → tolerance <ℤ max_duration
    → ltb_ℤ tolerance (abs_duration (saturated d)) ≡ false
    → IsClose tolerance d
unfolding IsClose abs_duration saturated ◌-ℤ◌
saturated-IsClose tolerance d small h = elim (Bool-cases (leb_ℤ d min_duration)) [
  | inl beyond ↦ inr (ground arith)
  | inr before ↦ inl (ground arith, ground arith)
]

in_reach :
    (tolerance d : ℤ)
    → tolerance <ℤ max_duration
    → (tolerance ≤ℤ pos 0) ⊎ (ltb_ℤ tolerance (abs_duration (saturated d)) ≡ false)
    → (tolerance ≤ℤ pos 0) ⊎ IsClose tolerance d
in_reach tolerance d small (inl unbounded) = inl unbounded
in_reach tolerance d small (inr close) = inr (saturated-IsClose tolerance d small close)

module _ (mac : Text → Text → Text) where
  matched :
      (secret payload signature : Text) (now : Time) (tolerance timestamp : ℤ)
      → skewed tolerance (since_unix now timestamp) ≡ false
      → compute_signature mac secret timestamp payload ≡ signature
      → verify_parsed mac secret payload now tolerance (inr (timestamp, signature)) ≡ none
  unfolding verify_parsed skewed
  matched secret payload signature now tolerance timestamp fresh same =
      rw fresh
        (rw ((list_beq_iff (compute_signature mac secret timestamp payload) signature).1 same) refl)

  accepted :
      (secret payload signature : Text) (now : Time) (tolerance timestamp : ℤ)
      → verify_parsed mac secret payload now tolerance (inr (timestamp, signature)) ≡ none
      → (skewed tolerance (since_unix now timestamp) ≡ false)
        × (compute_signature mac secret timestamp payload ≡ signature)
  unfolding verify_parsed skewed
  accepted secret payload signature now tolerance timestamp h =
      elim (Bool-cases (skewed tolerance (since_unix now timestamp))) [
        | inl bad ↦ absurd (ground (arith, bad, h))
        | inr fresh ↦
            elim (Bool-cases
              (list_beq (compute_signature mac secret timestamp payload) signature)) [
                | inl same ↦ (
                  fresh,
                  (list_beq_iff (compute_signature mac secret timestamp payload) signature).0 same,
                )
                | inr differs ↦ absurd (ground (arith, fresh, differs, h))
              ]
      ]

  rejected :
      (secret payload : Text) (now : Time) (tolerance : Duration) (e : Err)
      → verify_parsed mac secret payload now tolerance (inl e) ≢ none
  unfolding verify_parsed
  rejected secret payload now tolerance e h = absurd (ground arith)

  -- A header that has been signed verifies: with the same secret and payload, at any time that is
  -- within the tolerance of the signed second. The secret is not blank, the signing time is in the
  -- range of an int64 and at least a second after 1970, and the MAC is written as hexadecimal digits.
  pub verify-sign_header :
      (secret payload header : Text) (timestamp now tolerance : ℕ)
      → is_empty (trim_space secret) ≡ false
      → let unix = timestamp / seconds 1 in
        let signature = compute_signature mac secret (pos unix) payload in
        0 < unix
        → unix < 2 ^ 63
        → decodes signature ≡ true
        → is_empty signature ≡ false
        → seconds unix ≤ now + tolerance
        → now ≤ seconds unix + tolerance
        → sign_header mac secret timestamp payload ≡ inr header
        → verify_header mac secret header payload now (pos tolerance) ≡ none
  unfolding sign_header verify_header since_unix nanoseconds_since format_int skewed
  verify-sign_header secret payload header timestamp now tolerance named some_time small hex ne
        early late signed =
      let unix = timestamp / seconds 1 in
      let signature = compute_signature mac secret (pos unix) payload in
      let same : header ≡ written unix signature = ground arith in
      let parsed : parse_header header ≡ inr (pos unix, signature) =
        ap parse_header same ∙ parse_written unix signature some_time small hex ne in
      let close = abs_within now (seconds unix) tolerance early late in
      let fresh : skewed (pos tolerance) (since_unix now (pos unix)) ≡ false =
        ground (arith, close) in
      rw named
        (rw parsed (matched secret payload signature now (pos tolerance) (pos unix) fresh refl))

  -- A header verifies only if it carries the MAC of the payload, under the secret, at the timestamp
  -- that it names, and where the tolerance is positive, that timestamp is within it on both sides of
  -- `now`, or it is so far ahead of `now`, by 2^63 nanoseconds or more, about 292 years, that the
  -- difference is out of the range of a Duration. The tolerance is below the largest Duration.
  pub verified_exact :
      (secret payload header : Text) (now : Time) (tolerance : Duration)
      → tolerance <ℤ max_duration
      → verify_header mac secret header payload now tolerance ≡ none
      → (timestamp : ℤ) × (parse_header header
          ≡ inr (timestamp, compute_signature mac secret timestamp payload))
        × ((tolerance ≤ℤ pos 0) ⊎ IsClose tolerance (nanoseconds_since now timestamp))
  unfolding verify_header since_unix
  verified_exact secret payload header now tolerance small ok =
      let passed : verify_parsed mac secret payload now tolerance (parse_header header) ≡ none =
        ground arith in
      elim (Sum-cases (parse_header header)) [
        | inl (e, bad) ↦ absurd (rejected secret payload now tolerance e (rw bad at passed))
        | inr (r, good) ↦
            let (fresh, same) = accepted secret payload r.1 now tolerance r.0 (rw good at passed) in
            (
              r.0,
              good ∙ ap (λ x. inr (r.0, x)) (sym same),
              in_reach tolerance (nanoseconds_since now r.0) small
                  (not_skewed tolerance (since_unix now r.0) fresh),
            )
      ]
