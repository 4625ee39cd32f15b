-- ===== src/Files/Segments.antt =====
-- The segments of an object key, and a key taken apart at its slashes.
use synapse_go.Base.{
  ℕ, ◌≡◌, ap₂, true, false, ◌||◌, [], ◌∷◌, ◌++◌, arith, ◌==◌, All, nat_eq, Text, text_eq, codes,
  all_runes,
}
use synapse_go.Files.{is_lower_or_digit, is_alphanumeric, category_pattern, tenant_id_pattern}
use mathlib.Core.List.{append_cancel_left}

-- No slash.
unfoldable pub IsSegment : ℕ → Type 0
IsSegment c = (c == b'/') ≡ false

tenant-IsSegment :
    (c : ℕ) → (is_alphanumeric c || c == b'_' || c == b'.' || c == b'-') ≡ true → IsSegment c
unfolding is_alphanumeric is_lower_or_digit IsSegment
tenant-IsSegment c h = ground arith

tenants-IsSegment :
    (s : Text)
    → all_runes (λ d. is_alphanumeric d || d == b'_' || d == b'.' || d == b'-') s ≡ true
    → All IsSegment s
unfolding all_runes
tenants-IsSegment [] h = tt
tenants-IsSegment (c ∷ s) h =
    (tenant-IsSegment c (ground arith), tenants-IsSegment s (ground arith))

pub tenant_id-IsSegment : (s : Text) → tenant_id_pattern s ≡ true → All IsSegment s
unfolding tenant_id_pattern
tenant_id-IsSegment [] h = tt
tenant_id-IsSegment (c ∷ s) h =
    (tenant-IsSegment c (ground arith), tenants-IsSegment s (ground arith))

category-IsSegment : (c : ℕ) → (is_lower_or_digit c || c == b'_' || c == b'-') ≡ true → IsSegment c
unfolding is_lower_or_digit IsSegment
category-IsSegment c h = ground arith

categories-IsSegment :
    (s : Text)
    → all_runes (λ d. is_lower_or_digit d || d == b'_' || d == b'-') s ≡ true
    → All IsSegment s
unfolding all_runes
categories-IsSegment [] h = tt
categories-IsSegment (c ∷ s) h =
    (category-IsSegment c (ground arith), categories-IsSegment s (ground arith))

pub category_pattern-IsSegment : (s : Text) → category_pattern s ≡ true → All IsSegment s
unfolding category_pattern
category_pattern-IsSegment [] h = tt
category_pattern-IsSegment (c ∷ s) h =
    (category-IsSegment c (ground arith), categories-IsSegment s (ground arith))

-- The two sides of the first slash.
split-slash :
    (a b x y : Text)
    → All IsSegment a
    → All IsSegment b
    → a ++ b'/' ∷ x ≡ b ++ b'/' ∷ y
    → (a ≡ b) × (x ≡ y)
unfolding IsSegment
split-slash [] [] x y p q h = ground arith
split-slash [] (d ∷ b) x y p q h = absurd (ground (arith, q.0))
split-slash (c ∷ a) [] x y p q h = absurd (ground (arith, p.0))
split-slash (c ∷ a) (d ∷ b) x y p q h =
    let heads : c ≡ d = ground arith in
    let tails : a ++ b'/' ∷ x ≡ b ++ b'/' ∷ y = ground arith in
    let (same, after_it) = split-slash a b x y p.1 q.1 tails in
    (ap₂ (λ v w. v ∷ w) heads same, after_it)

unfoldable pub key_text : Text → Text → Text → Text → Text
key_text namespace tenant category rest =
    namespace ++ (codes "/tenants/" ++ (tenant ++ b'/' ∷ (category ++ b'/' ∷ rest)))

pub key_text_apart :
    (n ta ca ra tb cb rb : Text)
    → All IsSegment ta
    → All IsSegment tb
    → All IsSegment ca
    → All IsSegment cb
    → key_text n ta ca ra ≡ key_text n tb cb rb
    → (ta ≡ tb) × (ca ≡ cb)
unfolding key_text
key_text_apart n ta ca ra tb cb rb sa sb va vb h =
    let xa = ta ++ b'/' ∷ (ca ++ b'/' ∷ ra) in
    let xb = tb ++ b'/' ∷ (cb ++ b'/' ∷ rb) in
    let tail =
      append_cancel_left (codes "/tenants/") xa xb
        (append_cancel_left n (codes "/tenants/" ++ xa) (codes "/tenants/" ++ xb) h) in
    let (tenants, rest) = split-slash ta tb (ca ++ b'/' ∷ ra) (cb ++ b'/' ∷ rb) sa sb tail in
    (tenants, (split-slash ca cb ra rb va vb rest).0)
