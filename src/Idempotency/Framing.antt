-- ===== src/Idempotency/Framing.antt =====
-- The text that HashParts hashes determines its parts.
use synapse_go.Base.{
  ℕ, ◌≡◌, refl, sym, ap, ap₂, ◌∙◌, ◌≢◌, ◌⊎◌, inr, Option, List, [], ◌∷◌, ◌++◌, arith, All, nat_eq,
  Text, text_eq, codes, rune_len, byte_len, has_prefix, trim_prefix, Cases, format_nat, read_digits,
  IsDigit, read-format_nat, format_nat-IsDigit,
}
use mathlib.Core.List.{append_assoc, append_cancel_left}
use synapse_go.Idempotency.Keys.{
  Err, RequestScope, frame, frames, hash_parts, normalize_scope, key_of_scope, storage_key,
}

uncons : (c d : ℕ) (s t : Text) → c ∷ s ≡ d ∷ t → (c ≡ d) × (s ≡ t)
uncons c d s t h = ground arith

-- The two sides of the first colon, when only digits stand before it.
split-colon :
    (a b x y : Text) → All IsDigit a → All IsDigit b → a ++ 58 ∷ x ≡ b ++ 58 ∷ y → (a ≡ b) × (x ≡ y)
unfolding IsDigit
split-colon [] [] x y p q h = (refl, (uncons 58 58 x y h).1)
split-colon [] (d ∷ b) x y p q h = absurd (omega (arith, (uncons 58 d x (b ++ 58 ∷ y) h).0, q.0))
split-colon (c ∷ a) [] x y p q h = absurd (omega (arith, (uncons c 58 (a ++ 58 ∷ x) y h).0, p.0))
split-colon (c ∷ a) (d ∷ b) x y p q h =
    let (e, rest) = uncons c d (a ++ 58 ∷ x) (b ++ 58 ∷ y) h in
    let (same, after_it) = split-colon a b x y p.1 q.1 rest in (ap₂ (λ u v. u ∷ v) e same, after_it)

-- Texts of one length in bytes, before an equal mark.
split-length :
    (p q x y : Text) → byte_len p ≡ byte_len q → p ++ 0 ∷ x ≡ q ++ 0 ∷ y → (p ≡ q) × (x ≡ y)
unfolding byte_len rune_len
split-length [] [] x y n h = (refl, (uncons 0 0 x y h).1)
split-length [] (d ∷ q) x y n h = absurd (ground arith)
split-length (c ∷ p) [] x y n h = absurd (ground arith)
split-length (c ∷ p) (d ∷ q) x y n h =
    let (e, rest) = uncons c d (p ++ 0 ∷ x) (q ++ 0 ∷ y) h in
    let (same, after_it) = split-length p q x y (ground (arith, ap rune_len e)) rest in
    (ap₂ (λ u v. u ∷ v) e same, after_it)

framed : (p x : Text) → frame p ++ x ≡ format_nat (byte_len p) ++ 58 ∷ (p ++ 0 ∷ x)
unfolding frame
framed p x =
    append_assoc (format_nat (byte_len p)) (58 ∷ p ++ (0 ∷ [])) x
    ∙ ap (λ t. format_nat (byte_len p) ++ 58 ∷ t) (append_assoc p (0 ∷ []) x)

frame_apart : (p q x y : Text) → frame p ++ x ≡ frame q ++ y → (p ≡ q) × (x ≡ y)
frame_apart p q x y h =
    let both = sym (framed p x) ∙ h ∙ framed q y in
    let (number, rest) =
      split-colon (format_nat (byte_len p)) (format_nat (byte_len q)) (p ++ 0 ∷ x) (q ++ 0 ∷ y)
        (format_nat-IsDigit (byte_len p)) (format_nat-IsDigit (byte_len q)) both in
    let same =
      sym (read-format_nat (byte_len p))
      ∙ ap (read_digits 0) number
      ∙ read-format_nat (byte_len q) in
    split-length p q x y same rest

colon_some : (a y : Text) → a ++ 58 ∷ y ≢ []
colon_some [] y h = absurd (ground arith)
colon_some (c ∷ a) y h = absurd (ground arith)

frame_some : (p x : Text) → frame p ++ x ≢ []
frame_some p x h = colon_some (format_nat (byte_len p)) (p ++ 0 ∷ x) (sym (framed p x) ∙ h)

-- The parts are read back from the text that is hashed, whatever characters they have: no two lists
-- of parts are hashed as the same text.
frames-injective : (ps qs : List Text) → frames ps ≡ frames qs → ps ≡ qs
unfolding frames
frames-injective [] [] h = refl
frames-injective [] (q ∷ qs) h = absurd (frame_some q (frames qs) (sym h))
frames-injective (p ∷ ps) [] h = absurd (frame_some p (frames ps) h)
frames-injective (p ∷ ps) (q ∷ qs) h =
    let (same, rest) = frame_apart p q (frames ps) (frames qs) h in
    ap₂ (λ x xs. x ∷ xs) same (frames-injective ps qs rest)

unfoldable pub parts : RequestScope → List Text
parts s = s.tenant_id ∷ s.principal_id ∷ s.method ∷ s.path ∷ s.key ∷ []

parts-injective : (s t : RequestScope) → parts s ≡ parts t → s ≡ t
unfolding parts
parts-injective s t h = ground arith

module _ (u : Cases) (escaped : Text → Option Text) (digest : Text → Text) where
  key_text :
      (a s : RequestScope)
      → normalize_scope u escaped a ≡ inr s
      → storage_key u escaped digest a ≡ inr (codes "idem:v1:" ++ digest (frames (parts s)))
  unfolding storage_key key_of_scope hash_parts trim_prefix has_prefix parts
  key_text a s h = ap (key_of_scope u escaped digest) h

  -- Two requests that share a storage key are in one scope: they agree in tenant, principal, method,
  -- path and key, once each of them is normalized. Both scopes are valid, and SHA-256 has no
  -- collision on the texts that the two are hashed from.
  pub storage_key_apart :
      (a b s t : RequestScope)
      → normalize_scope u escaped a ≡ inr s
      → normalize_scope u escaped b ≡ inr t
      → (digest (frames (parts s)) ≡ digest (frames (parts t))
          → frames (parts s) ≡ frames (parts t))
      → storage_key u escaped digest a ≡ storage_key u escaped digest b
      → s ≡ t
  storage_key_apart a b s t ha hb apart h = parts-injective s t (
      frames-injective (parts s) (parts t) (
        apart (
          append_cancel_left (codes "idem:v1:") (digest (frames (parts s)))
            (digest (frames (parts t))) (inr_inj (sym (key_text a s ha) ∙ h ∙ key_text b t hb)))))
    where
      inr_inj : {x y : Text} → ◌≡◌ {A = Err ⊎ Text} (inr x) (inr y) → x ≡ y
      inr_inj e = cc e
