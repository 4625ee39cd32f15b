-- ===== src/Files/Tests.antt =====
-- Two uploads under one policy.
use synapse_go.Base.{
  ◌≡◌, refl, inl, none, [], ◌∷◌, pos, nat_eq, list_beq, Text, text_eq, codes, is_space, trim_left,
  trim_right, trim, has_prefix, all_runes, lower_rune, ascii_cases, Time,
}
use synapse_go.Files.{
  invalid_object_key, Object, UploadPolicy, UploadRequest, is_lower_or_digit, is_alphanumeric,
  category_pattern, tenant_id_pattern, contains, cut_slashes, all_categories, or_default,
  validate_visibility, lower_media, extension_of, normalize_category, category_or_empty,
  normalize_namespace, normalize_content_type, extension_for_content_type, contains_normalized,
  visibility_of, max_size_of, is_none_allowed, time_or, validate_rest, after_category, validate,
  join_key, with_extension, with_namespace, with_category, build_object_key, object_with, key_input,
  planned, plan,
}
use synapse_go.Files.Keys.{keys_apart}

abbrev policy : UploadPolicy
policy = record {
  max_size_bytes = pos 100;
  allowed_types = codes "image/png" ∷ [];
  allowed_categories = [];
  default_visibility = [];
  object_key_namespace = codes "Files/";
}

abbrev upload : UploadRequest
upload = record {
  tenant_id = codes "t1";
  category = codes "Logos";
  content_type = codes "image/png";
  size_bytes = pos 60;
  object_id = codes "a";
  visibility = [];
  now = 5;
}

abbrev object : Object
object = record {
  id = codes "a";
  tenant_id = codes "t1";
  object_key = codes "files/tenants/t1/logos/day/a.png";
  content_type = codes "image/png";
  size_bytes = pos 60;
  visibility = codes "private";
  created_at = 5;
}

abbrev day : Time → Text
day t = codes "day"

program : Unit {0}
unfolding plan planned validate after_category validate_rest visibility_of max_size_of
    is_none_allowed object_with key_input build_object_key with_category with_namespace
    with_extension join_key time_or or_default normalize_category category_pattern category_or_empty
    tenant_id_pattern is_alphanumeric is_lower_or_digit contains cut_slashes all_categories
    normalize_namespace normalize_content_type lower_media extension_for_content_type extension_of
    contains_normalized validate_visibility all_runes lower_rune has_prefix list_beq trim trim_left
    trim_right is_space
program = tt

keys_apart_example :
    (object.tenant_id ≡ object.tenant_id)
    × (normalize_category ascii_cases (codes "Logos")
        ≡ normalize_category ascii_cases (codes " logos"))
unfolding program
keys_apart_example =
    keys_apart ascii_cases (λ t. t) (λ t. none) day policy upload
      (record upload { category = codes " logos" }) 9 9 (codes "f") (codes "g") object object refl
      refl refl

escaped :
    plan ascii_cases
      (λ t. t)
      (λ t. none)
      day
      policy
      (record upload { tenant_id = codes "../t2" })
      9
      (codes "f")
    ≡ inl invalid_object_key
unfolding program
escaped = refl
