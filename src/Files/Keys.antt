-- ===== src/Files/Keys.antt =====
-- The objects of a plan and their keys.
use synapse_go.Base.{
  ◌≡◌, sym, ap, subst, ◌∙◌, ◌≢◌, ◌⊎◌, inl, inr, true, ◌||◌, Option, none, ◌∷◌, ◌++◌, arith,
  Bool-cases, Option-cases, Sum-cases, All, pos, ◌≤ℤ◌, ltb_ℤ, nat_eq, Text, text_eq, is_empty,
  trim_space, Cases, Time,
}
use synapse_go.Files.{
  Err, Object, UploadPolicy, UploadRequest, ObjectKeyInput, category_pattern, tenant_id_pattern,
  or_default, validate_visibility, normalize_category, normalize_namespace, normalize_content_type,
  extension_for_content_type, contains_normalized, visibility_of, max_size_of, time_or,
  validate_rest, after_category, validate, join_key, with_extension, with_namespace, with_category,
  build_object_key, object_with, key_input, planned, plan,
}
use synapse_go.Files.Segments.{
  IsSegment, tenant_id-IsSegment, category_pattern-IsSegment, key_text, key_text_apart,
}

inr_inj : {x y : Text} → ◌≡◌ {A = Err ⊎ Text} (inr x) (inr y) → x ≡ y
inr_inj e = cc e

module _ (u : Cases) (clean : Text → Text) (parse_media : Text → Option Text)
    (day_path : Time → Text) where
  -- What a key is made of.
  IsKey : Text → Text → Text → Text → Type 0
  IsKey namespace tenant key category =
      All IsSegment tenant
      × All IsSegment category
      × ((rest : Text) × (key ≡ key_text namespace tenant category rest))

  normalized : (raw c : Text) → normalize_category u raw ≡ inr c → category_pattern c ≡ true
  unfolding normalize_category
  normalized raw c h = ground arith

  category_passed :
      (i : ObjectKeyInput) (now : Time) (category key : Text)
      → with_category u clean parse_media day_path i now (inr category) ≡ inr key
      → (tenant_id_pattern (trim_space i.tenant_id) ≡ true)
        × (with_namespace u clean parse_media day_path i now category
              (normalize_namespace u clean i.namespace)
            ≡ inr key)
  unfolding with_category
  category_passed i now category key h = ground arith

  namespace_passed :
      (i : ObjectKeyInput) (now : Time) (category namespace key : Text)
      → with_namespace u clean parse_media day_path i now category (inr namespace) ≡ inr key
      → (rest : Text) × (key ≡ key_text namespace (trim_space i.tenant_id) category rest)
  unfolding with_namespace with_extension join_key key_text
  namespace_passed i now category namespace key h =
      elim (Option-cases (extension_for_content_type u parse_media i.content_type)) [
        | inl unknown ↦ absurd (ground (arith, unknown, h))
        | inr (ext, known) ↦ (
          day_path (time_or now i.now) ++ (b'/' ∷ trim_space i.object_id ++ ext),
          ground (arith, known, h),
        )
      ]

  no_category :
      (i : ObjectKeyInput) (now : Time) (key : Text) (e : Err)
      → with_category u clean parse_media day_path i now (inl e) ≢ inr key
  unfolding with_category
  no_category i now key e h = absurd (ground arith)

  no_namespace :
      (i : ObjectKeyInput) (now : Time) (category key : Text) (e : Err)
      → with_namespace u clean parse_media day_path i now category (inl e) ≢ inr key
  unfolding with_namespace
  no_namespace i now category key e h = absurd (ground arith)

  built :
      (i : ObjectKeyInput) (now : Time) (key : Text)
      → build_object_key u clean parse_media day_path i now ≡ inr key
      → (namespace : Text) × (category : Text) × (normalize_namespace u clean i.namespace
          ≡ inr namespace)
        × (normalize_category u i.category ≡ inr category)
        × IsKey namespace (trim_space i.tenant_id) key category
  unfolding IsKey build_object_key
  built i now key h = elim (Sum-cases (normalize_category u i.category)) [
    | inl (e, bad) ↦ absurd (no_category i now key e (rw bad at h))
    | inr (category, good) ↦
        let (tenant, passed) = category_passed i now category key (rw good at h) in
        elim (Sum-cases (normalize_namespace u clean i.namespace)) [
          | inl (e, bad) ↦ absurd (no_namespace i now category key e (rw bad at passed))
          | inr (namespace, named) ↦ (
            namespace,
            category,
            named,
            good,
            (
              tenant_id-IsSegment (trim_space i.tenant_id) tenant,
              category_pattern-IsSegment category (normalized i.category category good),
              namespace_passed i now category namespace key (rw named at passed),
            ),
          )
        ]
  ]

  abbrev input_of : UploadPolicy → UploadRequest → Time → Text → ObjectKeyInput
  input_of p req clock fresh =
      key_input u clean parse_media day_path p req (time_or clock req.now)
        (or_default (trim_space req.object_id) fresh)

  object_passed :
      (p : UploadPolicy) (req : UploadRequest) (clock : Time) (fresh : Text) (o : Object)
      → plan u clean parse_media day_path p req clock fresh ≡ inr o
      → (validate u clean parse_media day_path p req ≡ none)
        × (build_object_key u clean parse_media day_path (input_of p req clock fresh) clock
            ≡ inr o.object_key)
        × (o.tenant_id ≡ trim_space req.tenant_id)
        × (o.size_bytes ≡ req.size_bytes)
        × (o.visibility ≡ visibility_of p req)
        × (o.content_type ≡ normalize_content_type u parse_media req.content_type)
  unfolding plan planned object_with
  object_passed p req clock fresh o h =
      elim (Option-cases (validate u clean parse_media day_path p req)) [
        | inr (e, bad) ↦ absurd (ground (arith, bad, h))
        | inl fine ↦
            elim (Sum-cases
              (build_object_key u clean parse_media day_path (input_of p req clock fresh) clock)) [
                | inl (e, bad) ↦ absurd (ground (arith, fine, bad, h))
                | inr (key, good) ↦
                    let same : o ≡ record {
                      id = or_default (trim_space req.object_id) fresh;
                      tenant_id = trim_space req.tenant_id;
                      object_key = key;
                      content_type = normalize_content_type u parse_media req.content_type;
                      size_bytes = req.size_bytes;
                      visibility = visibility_of p req;
                      created_at = time_or clock req.now;
                    } =
                      ground (arith, fine, good, h) in
                    (
                      fine,
                      good ∙ ap (λ (x : Object). inr x.object_key) (sym same),
                      ap (λ (x : Object). x.tenant_id) same,
                      ap (λ (x : Object). x.size_bytes) same,
                      ap (λ (x : Object). x.visibility) same,
                      ap (λ (x : Object). x.content_type) same,
                    )
              ]
      ]

  -- Two uploads under one policy whose objects have one key belong to one tenant and one category:
  -- no tenant can reach the key of another's object.
  pub keys_apart :
      (p : UploadPolicy) (a b : UploadRequest) (clock later : Time) (fresh other : Text)
      (o q : Object)
      → plan u clean parse_media day_path p a clock fresh ≡ inr o
      → plan u clean parse_media day_path p b later other ≡ inr q
      → o.object_key ≡ q.object_key
      → (o.tenant_id ≡ q.tenant_id)
        × (normalize_category u a.category ≡ normalize_category u b.category)
  unfolding IsKey key_input
  keys_apart p a b clock later fresh other o q pa pb same =
      let (_, ka, ta, _, _, _) = object_passed p a clock fresh o pa in
      let (_, kb, tb, _, _, _) = object_passed p b later other q pb in
      let (na, ca, ea, ga, (sa, va, (ra, ka'))) =
        built (input_of p a clock fresh) clock o.object_key ka in
      let (nb, cb, eb, gb, (sb, vb, (rb, kb'))) =
        built (input_of p b later other) later q.object_key kb in
      let one : na ≡ nb = inr_inj (sym ea ∙ eb) in
      let keys : key_text na (trim_space a.tenant_id) ca ra
          ≡ key_text na (trim_space b.tenant_id) cb rb =
        sym ka' ∙ same ∙ kb' ∙ ap (λ n. key_text n (trim_space b.tenant_id) cb rb) (sym one) in
      let (tenants, categories) =
        key_text_apart na (trim_space a.tenant_id) ca ra (trim_space b.tenant_id) cb rb sa sb va vb
          keys in
      (ta ∙ tenants ∙ sym tb, ga ∙ ap inr categories ∙ sym gb)

  validated :
      (p : UploadPolicy) (req : UploadRequest)
      → validate u clean parse_media day_path p req ≡ none
      → (pos 0 ≤ℤ req.size_bytes)
        × (req.size_bytes ≤ℤ max_size_of p)
        × (contains_normalized u parse_media p.allowed_types
              (normalize_content_type u parse_media req.content_type)
            ≡ true)
        × (validate_visibility (visibility_of p req) ≡ none)
  unfolding validate after_category validate_rest
  validated p req h =
      elim (Bool-cases (is_empty (trim_space req.tenant_id) || ltb_ℤ req.size_bytes (pos 0))) [
        | inl bad ↦ absurd (ground (arith, bad, h))
        | inr named ↦ elim (Sum-cases (normalize_category u req.category)) [
          | inl (e, bad) ↦ absurd (ground (arith, named, bad, h))
          | inr (c, good) ↦ ground (arith, named, good, h)
        ]
      ]

  -- The object of a plan is within the policy: its size is from 0 to the maximum, 10 MiB where the
  -- policy has none, its content type is among those allowed, and its visibility is private or
  -- public.
  planned_within :
      (p : UploadPolicy) (req : UploadRequest) (clock : Time) (fresh : Text) (o : Object)
      → plan u clean parse_media day_path p req clock fresh ≡ inr o
      → (pos 0 ≤ℤ o.size_bytes)
        × (o.size_bytes ≤ℤ max_size_of p)
        × (contains_normalized u parse_media p.allowed_types o.content_type ≡ true)
        × (validate_visibility o.visibility ≡ none)
  planned_within p req clock fresh o h =
      let (fine, _, _, size, visible, type) = object_passed p req clock fresh o h in
      let (low, high, allowed, shown) = validated p req fine in
      (
        subst (λ n. pos 0 ≤ℤ n) (sym size) low,
        subst (λ n. n ≤ℤ max_size_of p) (sym size) high,
        ap (contains_normalized u parse_media p.allowed_types) type ∙ allowed,
        ap validate_visibility visible ∙ shown,
      )
