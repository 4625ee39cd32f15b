-- ===== src/Rbac/Covers.antt =====
-- What a permission code stands for, apart from how it is matched.
use synapse_go.Base.{
  ◌≡◌, refl, sym, ap, ap₂, subst, ◌∙◌, ◌↔◌, inl, inr, true, false, Option, none, some, List, [],
  ◌∷◌, ◌++◌, arith, Bool-cases, Option-cases, Any, here, there, nat_eq, beq_refl, list_beq,
  list_beq_iff, Text, text_eq, codes, is_empty, trim_space, has_prefix,
}
use synapse_go.Rbac.Matching.{
  prepend, cut_suffix, matches_trimmed, permission_matches, is_allowed, Subject, permission_codes,
  part, check_permission,
}

-- A granted code covers a requested one: "*" covers all, each code itself, and "p.*" covers "p" and
-- what begins with "p.".
pub data Covers : Text → Text → Type 0 where
  everything : (r : Text) → Covers (codes "*") r
  itself : (r : Text) → Covers r r
  root : (p : Text) → Covers (p ++ codes ".*") p
  inside : (p s : Text) → Covers (p ++ codes ".*") ((p ++ codes ".") ++ s)

cut_suffix_sound : (suffix s p : Text) → cut_suffix suffix s ≡ some p → s ≡ p ++ suffix
unfolding cut_suffix prepend
cut_suffix_sound suffix [] p h = ground (arith, list_beq_iff [] suffix)
cut_suffix_sound suffix (c ∷ s) p h = elim (Bool-cases (list_beq (c ∷ s) suffix)) [
  | inl whole ↦ ground (arith, list_beq_iff (c ∷ s) suffix, whole)
  | inr longer ↦ elim (Option-cases (cut_suffix suffix s)) [
    | inl absent ↦ absurd (ground (arith, absent))
    | inr (q, found) ↦
        let e : p ≡ c ∷ q = ground (arith, found) in
        ap (λ t. c ∷ t) (cut_suffix_sound suffix s q found) ∙ ap (λ t. t ++ suffix) (sym e)
  ]
]

cut_suffix-append : (p : Text) → cut_suffix (codes ".*") (p ++ codes ".*") ≡ some p
unfolding cut_suffix prepend list_beq
cut_suffix-append [] = refl
cut_suffix-append (c ∷ []) = ground arith
cut_suffix-append (c ∷ d ∷ []) = ground arith
cut_suffix-append (c ∷ d ∷ e ∷ p) = rw (cut_suffix-append (d ∷ e ∷ p)) (ground arith)

has_prefix-append : (p s : Text) → has_prefix (p ++ s) p ≡ true
unfolding has_prefix
has_prefix-append [] [] = refl
has_prefix-append [] (c ∷ s) = refl
has_prefix-append (c ∷ p) s = ground (arith, has_prefix-append p s)

has_prefix_sound : (s p : Text) → has_prefix s p ≡ true → (t : Text) × (s ≡ p ++ t)
unfolding has_prefix
has_prefix_sound s [] h = (s, refl)
has_prefix_sound [] (p ∷ ps) h = absurd (ground arith)
has_prefix_sound (c ∷ s) (p ∷ ps) h =
    let (t, e) = has_prefix_sound s ps (ground arith) in (t, ap₂ (λ x y. x ∷ y) (ground arith) e)

covered :
    (g r : Text)
    → matches_trimmed g r ≡ true
    → (is_empty g ≡ false) × (is_empty r ≡ false) × Covers g r
unfolding matches_trimmed
covered g r h = (ground arith, ground arith, which)
  where
    below : (p : Text) → g ≡ p ++ codes ".*" → (t : Text) × (r ≡ (p ++ codes ".") ++ t) → Covers g r
    below p e (t, f) =
        subst (λ x. Covers g x) (sym f)
          (subst (λ x. Covers x ((p ++ codes ".") ++ t)) (sym e) (inside p t))

    at_root : (p : Text) → g ≡ p ++ codes ".*" → r ≡ p → Covers g r
    at_root p e f = subst (λ x. Covers g x) (sym f) (subst (λ x. Covers x p) (sym e) (root p))

    by_suffix :
        (o : Option Text)
        → cut_suffix (codes ".*") g ≡ o
        → list_beq g (codes "*") ≡ false
        → list_beq g r ≡ false
        → Covers g r
    by_suffix none e a b = absurd (ground (arith, e, a, b, h))
    by_suffix (some p) e a b = elim (Bool-cases (list_beq r p)) [
      | inl same ↦
          at_root p (cut_suffix_sound (codes ".*") g p e) (ground (arith, list_beq_iff r p, same))
      | inr deeper ↦
          below p (cut_suffix_sound (codes ".*") g p e)
            (has_prefix_sound r (p ++ codes ".") (ground (arith, e, a, b, h, deeper)))
    ]

    which : Covers g r
    which = elim (Bool-cases (list_beq g (codes "*"))) [
      | inl star ↦
          subst (λ x. Covers x r) (sym (ground (arith, list_beq_iff g (codes "*"), star)))
            (everything r)
      | inr a ↦ elim (Bool-cases (list_beq g r)) [
        | inl same ↦ subst (λ x. Covers g x) (ground (arith, list_beq_iff g r, same)) (itself g)
        | inr b ↦ by_suffix (cut_suffix (codes ".*") g) refl a b
      ]
    ]

matched :
    (g r : Text) → is_empty g ≡ false → is_empty r ≡ false → Covers g r → matches_trimmed g r ≡ true
unfolding matches_trimmed
matched g r a b (everything r') = ground (arith, b, beq_refl {A = Text} (codes "*"))
matched g r a b (itself r') = ground (arith, a, beq_refl {A = Text} r')
matched g r a b (root p) = ground (arith, a, b, cut_suffix-append p, beq_refl {A = Text} p)
matched g r a b (inside p s) =
    ground (arith, a, b, cut_suffix-append p, has_prefix-append (p ++ codes ".") s)

-- A granted code allows a requested one exactly when, both trimmed of spaces, neither is empty and
-- the first covers the second.
permission_matches_iff :
    (granted requested : Text)
    → (permission_matches granted requested ≡ true) ↔ (
        (is_empty (trim_space granted) ≡ false)
        × (is_empty (trim_space requested) ≡ false)
        × Covers (trim_space granted) (trim_space requested))
unfolding permission_matches
permission_matches_iff granted requested = (
  λ h. covered (trim_space granted) (trim_space requested) h,
  λ (a, b, c). matched (trim_space granted) (trim_space requested) a b c,
)

-- A code among those granted that covers the requested one.
pub Granted : Text → Text → Type 0
Granted requested code =
    (is_empty (trim_space code) ≡ false)
    × (is_empty (trim_space requested) ≡ false)
    × Covers (trim_space code) (trim_space requested)

allowed-Any :
    (granted : List Text) (requested : Text)
    → is_allowed granted requested ≡ true
    → Any (Granted requested) granted
unfolding is_allowed Granted
allowed-Any [] requested h = absurd (ground arith)
allowed-Any (code ∷ granted) requested h = elim (Bool-cases (permission_matches code requested)) [
  | inl matching ↦ here ((permission_matches_iff code requested).0 matching)
  | inr otherwise ↦ there (allowed-Any granted requested (ground (arith, otherwise)))
]

Any-allowed :
    (granted : List Text) (requested : Text)
    → Any (Granted requested) granted
    → is_allowed granted requested ≡ true
unfolding is_allowed Granted
Any-allowed [] requested h = elim h [ ]
Any-allowed (code ∷ granted) requested (here h) =
    ground (arith, (permission_matches_iff code requested).1 h)
Any-allowed (code ∷ granted) requested (there h) = ground (arith, Any-allowed granted requested h)

not_point : (a b : Text) → is_empty a ≡ false → list_beq (a ++ codes "." ++ b) (codes ".") ≡ false
unfolding list_beq
not_point [] b h = absurd (ground arith)
not_point (c ∷ []) b h = ground arith
not_point (c ∷ d ∷ a) b h = ground arith

-- A subject passes the check of an action on a resource exactly when neither part is empty and one
-- of its codes covers the code that the two parts make.
pub check_permission_iff :
    (subject : Subject) (resource action : Text)
    → (check_permission subject resource action ≡ true) ↔ (
        (is_empty (part resource) ≡ false)
        × (is_empty (part action) ≡ false)
        × Any (Granted (part resource ++ codes "." ++ part action)) (permission_codes subject))
unfolding check_permission
check_permission_iff subject resource action =
    let requested = part resource ++ codes "." ++ part action in
    (
      λ h. (
        ground arith,
        ground arith,
        allowed-Any (permission_codes subject) requested (ground arith),
      ),
      λ (a, b, c). ground (
        arith,
        a,
        b,
        not_point (part resource) (part action) a,
        Any-allowed (permission_codes subject) requested c,
      ),
    )
