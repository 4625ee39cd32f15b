-- ===== src/Files.antt =====
-- files/files.go: uploads and the keys of their objects. mime.ParseMediaType, filepath.Clean and the
-- format of a day are parameters; the current time and a new identifier are arguments.
pub mod Segments
pub mod Keys
mod Tests
use synapse_go.Base.{
  ℕ, zero, suc, ◌+◌, ◌-◌, ◌*◌, ◌/◌, ◌%◌, ◌^◌, ◌≤◌, ◌<◌, min, ◌≡◌, refl, sym, ap, ap₂, subst, ◌∙◌,
  ◌≢◌, ◌↔◌, ◌⊎◌, inl, inr, Bool, true, false, not, ◌&&◌, ◌||◌, Option, none, some, List, [], ◌∷◌,
  ◌++◌, map, arith, ◌==◌, ==_iff, ltb, leb, if◌then◌else◌, ltb→lt, ltb_false→le, leb→le, Bool-cases,
  Option-cases, ap-if, Sum-cases, length, take, drop, length-append, length-take, length-drop, All,
  Any, here, there, ℤ, pos, negsuc, pos_part, neg_part, sub_ℕ, ◌+ℤ◌, ◌-ℤ◌, ◌≤ℤ◌, ◌<ℤ◌, ltb_ℤ, leb_ℤ,
  nonpos, +ℤ_parts, -ℤ_parts, eq_of_parts, int_laws, ltb_ℤ_false, eq_ℤ, eq_ℤ_refl, eq_of_eq_ℤ, Eq,
  nat_eq, beq_refl, beq_false, ne_of_beq, list_beq, list_beq_iff, lookup, insert, delete,
  lookup-insert, lookup-insert_self, lookup-insert_ne, lookup-delete, Text, text_eq, codes,
  is_empty, rune_len, byte_len, is_space, trim_left, trim_right, trim, trim_space, has_prefix,
  first_ok, last_ok, last_ok-trim_right, trim_id, first_ok-trim, last_ok-trim, trim_idem,
  trim_prefix, all_runes, Cases, upper_rune, lower_rune, to_upper, to_lower, ascii_cases, Time,
  Duration, is_zero, add_time, sub_time, after, seconds, digits_before, format_nat, format_int,
  read_digits, IsDigit, read-format_nat, format_nat-IsDigit, format_nat_some, push_word, words,
  fields, words_one, words-append, words-space, pushed,
}

pub data Err : Type 0 where
  invalid_upload_policy invalid_upload unsupported_type invalid_object_key : Err

pub record Object : Type 0 where
  pub id : Text
  pub tenant_id : Text
  pub object_key : Text
  pub content_type : Text
  pub size_bytes : ℤ
  pub visibility : Text
  pub created_at : Time

pub record UploadPolicy : Type 0 where
  pub max_size_bytes : ℤ
  pub allowed_types : List Text
  pub allowed_categories : List Text
  pub default_visibility : Text
  pub object_key_namespace : Text

pub record UploadRequest : Type 0 where
  pub tenant_id : Text
  pub category : Text
  pub content_type : Text
  pub size_bytes : ℤ
  pub object_id : Text
  pub visibility : Text
  pub now : Time

pub record ObjectKeyInput : Type 0 where
  pub namespace : Text
  pub tenant_id : Text
  pub category : Text
  pub content_type : Text
  pub object_id : Text
  pub now : Time

abbrev pub default_max_upload_size_bytes : ℤ
default_max_upload_size_bytes = pos 10485760

unfoldable pub is_lower_or_digit : ℕ → Bool
is_lower_or_digit c = (leb 97 c && ltb c 123) || (leb 48 c && ltb c 58)

unfoldable pub is_alphanumeric : ℕ → Bool
is_alphanumeric c = is_lower_or_digit c || (leb 65 c && ltb c 91)

-- `^[a-z0-9][a-z0-9_-]{0,63}$`
unfoldable pub category_pattern : Text → Bool
category_pattern [] = false
category_pattern (c ∷ s) =
    is_lower_or_digit c
    && all_runes (λ d. is_lower_or_digit d || d == b'_' || d == b'-') s
    && leb (length s) 63

-- `^[A-Za-z0-9][A-Za-z0-9_.-]{0,127}$`
unfoldable pub tenant_id_pattern : Text → Bool
tenant_id_pattern [] = false
tenant_id_pattern (c ∷ s) =
    is_alphanumeric c
    && all_runes (λ d. is_alphanumeric d || d == b'_' || d == b'.' || d == b'-') s
    && leb (length s) 127

unfoldable pub contains : ℕ → Text → Bool
contains r [] = false
contains r (c ∷ s) = c == r || contains r s

-- `strings.Split(s, "/")`
unfoldable pub cut_slashes : Text → Text × List Text
cut_slashes [] = ([], [])
cut_slashes (c ∷ s) = let (p, ps) = cut_slashes s in if c == b'/' then ([], p ∷ ps) else (c ∷ p, ps)

unfoldable pub all_categories : List Text → Bool
all_categories [] = true
all_categories (p ∷ ps) = category_pattern p && all_categories ps

unfoldable pub or_default : Text → Text → Text
or_default [] d = d
or_default (c ∷ s) d = c ∷ s

unfoldable pub validate_visibility : Text → Option Err
validate_visibility v =
    if list_beq v (codes "private") || list_beq v (codes "public")
    then none
    else some invalid_upload

unfoldable pub lower_media : Cases → Option Text → Text → Text
lower_media u none s = to_lower u (trim_space s)
lower_media u (some parsed) s = to_lower u parsed

-- The extension of a content type that has been normalized.
unfoldable pub extension_of : Text → Option Text
extension_of t =
    if list_beq t (codes "image/jpeg")
    then some (codes ".jpg")
    else if list_beq t (codes "image/png")
    then some (codes ".png")
    else if list_beq t (codes "image/webp")
    then some (codes ".webp")
    else if list_beq t (codes "application/pdf")
    then some (codes ".pdf")
    else if list_beq t (codes "text/csv")
    then some (codes ".csv")
    else if list_beq t (codes "application/json")
    then some (codes ".json")
    else none

module _ (u : Cases) where
  unfoldable pub normalize_category : Text → Err ⊎ Text
  normalize_category raw =
      let category = to_lower u (trim_space raw) in
      if category_pattern category then inr category else inl invalid_upload

  unfoldable pub category_or_empty : Err ⊎ Text → Text
  category_or_empty (inl e) = []
  category_or_empty (inr c) = c

module _ (u : Cases) (clean : Text → Text) where
  unfoldable pub normalize_namespace : Text → Err ⊎ Text
  normalize_namespace raw =
      let namespace = trim (λ c. c == b'/') (to_lower u (trim_space raw)) in
      let cleaned = clean namespace in
      let (p, ps) = cut_slashes cleaned in
      if is_empty namespace
      then inr (codes "files")
      else if has_prefix cleaned (codes "../")
          || list_beq cleaned (codes "..")
          || contains b'\\' cleaned
      then inl invalid_object_key
      else if all_categories (p ∷ ps)
      then inr cleaned
      else inl invalid_object_key

module _ (u : Cases) (parse_media : Text → Option Text) where
  unfoldable pub normalize_content_type : Text → Text
  normalize_content_type t = lower_media u (parse_media (trim_space t)) t

  unfoldable pub extension_for_content_type : Text → Option Text
  extension_for_content_type t = extension_of (normalize_content_type t)

  unfoldable pub contains_normalized : List Text → Text → Bool
  contains_normalized [] want = false
  contains_normalized (v ∷ vs) want =
      list_beq (normalize_content_type v) want
      || list_beq (to_lower u (trim_space v)) want
      || contains_normalized vs want

unfoldable pub visibility_of : UploadPolicy → UploadRequest → Text
visibility_of p req = or_default (or_default req.visibility p.default_visibility) (codes "private")

unfoldable pub max_size_of : UploadPolicy → ℤ
max_size_of p =
    if eq_ℤ p.max_size_bytes (pos 0) then default_max_upload_size_bytes else p.max_size_bytes

unfoldable pub is_none_allowed : List Text → Bool
is_none_allowed [] = true
is_none_allowed (t ∷ ts) = false

-- `now` where the given time is the zero time.
unfoldable pub time_or : Time → Time → Time
time_or now t = if is_zero t then now else t

module _ (u : Cases) (clean : Text → Text) (parse_media : Text → Option Text)
    (day_path : Time → Text) where
  unfoldable pub validate_rest : UploadPolicy → UploadRequest → Option Err
  unfolding visibility_of max_size_of is_none_allowed
  validate_rest p req =
      let max_size = max_size_of p in
      let content_type = normalize_content_type u parse_media req.content_type in
      let category = category_or_empty u (normalize_category u req.category) in
      if ltb_ℤ max_size (pos 0) || is_none_allowed p.allowed_types
      then some invalid_upload_policy
      else if ltb_ℤ max_size req.size_bytes
      then some invalid_upload
      else if not (contains_normalized u parse_media p.allowed_types content_type)
      then some unsupported_type
      else if not (is_none_allowed p.allowed_categories)
          && not (contains_normalized u parse_media p.allowed_categories category)
      then some invalid_upload
      else validate_visibility (visibility_of p req)

  unfoldable pub after_category : UploadPolicy → UploadRequest → Err ⊎ Text → Option Err
  after_category p req (inl e) = some e
  after_category p req (inr c) = validate_rest p req

  unfoldable pub validate : UploadPolicy → UploadRequest → Option Err
  unfolding after_category
  validate p req =
      if is_empty (trim_space req.tenant_id) || ltb_ℤ req.size_bytes (pos 0)
      then some invalid_upload
      else after_category p req (normalize_category u req.category)

  unfoldable pub join_key : Text → Text → Text → Text → Text → Text
  join_key namespace tenant category day file =
      namespace
      ++ (codes "/tenants/" ++ (tenant ++ (b'/' ∷ category ++ (b'/' ∷ day ++ (b'/' ∷ file)))))

  unfoldable pub with_extension : ObjectKeyInput → Time → Text → Text → Option Text → Err ⊎ Text
  with_extension i now category namespace none = inl unsupported_type
  with_extension i now category namespace (some ext) = inr (
      join_key namespace (trim_space i.tenant_id) category (day_path (time_or now i.now))
        (trim_space i.object_id ++ ext))

  unfoldable pub with_namespace : ObjectKeyInput → Time → Text → Err ⊎ Text → Err ⊎ Text
  with_namespace i now category (inl e) = inl e
  with_namespace i now category (inr namespace) =
      with_extension i now category namespace
        (extension_for_content_type u parse_media i.content_type)

  unfoldable pub with_category : ObjectKeyInput → Time → Err ⊎ Text → Err ⊎ Text
  with_category i now (inl e) = inl e
  with_category i now (inr category) =
      let object_id = trim_space i.object_id in
      if not (tenant_id_pattern (trim_space i.tenant_id))
        || is_empty object_id
        || contains b'/' object_id
        || contains b'\\' object_id
      then inl invalid_object_key
      else with_namespace i now category (normalize_namespace u clean i.namespace)

  unfoldable pub build_object_key : ObjectKeyInput → Time → Err ⊎ Text
  build_object_key i now = with_category i now (normalize_category u i.category)

  unfoldable pub object_with :
      UploadPolicy → UploadRequest → Time → Text → Err ⊎ Text → Err ⊎ Object
  object_with p req now object_id (inl e) = inl e
  object_with p req now object_id (inr key) = inr (record {
    id = object_id;
    tenant_id = trim_space req.tenant_id;
    object_key = key;
    content_type = normalize_content_type u parse_media req.content_type;
    size_bytes = req.size_bytes;
    visibility = visibility_of p req;
    created_at = now;
  })

  unfoldable pub key_input : UploadPolicy → UploadRequest → Time → Text → ObjectKeyInput
  key_input p req now object_id = record {
    namespace = p.object_key_namespace;
    tenant_id = req.tenant_id;
    category = req.category;
    content_type = req.content_type;
    object_id = object_id;
    now = now;
  }

  unfoldable pub planned : Option Err → UploadPolicy → UploadRequest → Time → Text → Err ⊎ Object
  planned (some e) p req clock fresh = inl e
  planned none p req clock fresh =
      let now = time_or clock req.now in
      let object_id = or_default (trim_space req.object_id) fresh in
      object_with p req now object_id (build_object_key (key_input p req now object_id) clock)

  unfoldable pub plan : UploadPolicy → UploadRequest → Time → Text → Err ⊎ Object
  plan p req clock fresh = planned (validate p req) p req clock fresh
