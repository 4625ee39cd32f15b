-- ===== src/Utils.antt =====
-- utils/phone.go and utils/ip.go: masking of phone numbers and the address of a client.
pub mod Client
mod Tests
use synapse_go.Base.{
  ℕ, zero, suc, ◌+◌, ◌-◌, ◌*◌, ◌/◌, ◌%◌, ◌^◌, ◌≤◌, ◌<◌, min, ◌≡◌, refl, sym, ap, ap₂, subst, ◌∙◌,
  ◌≢◌, ◌↔◌, ◌⊎◌, inl, inr, Bool, true, false, not, ◌&&◌, ◌||◌, Option, none, some, List, [], ◌∷◌,
  ◌++◌, map, arith, ◌==◌, ==_iff, ltb, leb, if◌then◌else◌, ltb→lt, ltb_false→le, leb→le, Bool-cases,
  Option-cases, ap-if, Sum-cases, length, take, drop, length-append, length-take, length-drop, All,
  Any, here, there, ℤ, pos, negsuc, pos_part, neg_part, sub_ℕ, ◌+ℤ◌, ◌-ℤ◌, ◌≤ℤ◌, ◌<ℤ◌, ltb_ℤ, leb_ℤ,
  nonpos, +ℤ_parts, -ℤ_parts, eq_of_parts, int_laws, ltb_ℤ_false, eq_ℤ, eq_ℤ_refl, eq_of_eq_ℤ, Eq,
  nat_eq, beq_refl, beq_false, ne_of_beq, list_beq, list_beq_iff, lookup, insert, delete,
  lookup-insert, lookup-insert_self, lookup-insert_ne, lookup-delete, Text, text_eq, codes,
  is_empty, rune_len, byte_len, is_space, trim_left, trim_right, trim, trim_space, has_prefix,
  first_ok, last_ok, last_ok-trim_right, trim_id, first_ok-trim, last_ok-trim, trim_idem,
  trim_prefix, all_runes, Cases, upper_rune, lower_rune, to_upper, to_lower, ascii_cases, Time,
  Duration, is_zero, add_time, sub_time, after, seconds, digits_before, format_nat, format_int,
  read_digits, is_digit, IsDigit, read-format_nat, format_nat-IsDigit, format_nat_some, push_word,
  words, fields, words_one, words-append, words-space, pushed,
}

-- `^1[3-9]\d{9}$`
unfoldable pub is_valid_chinese_phone : Text → Bool
is_valid_chinese_phone (a ∷ b ∷ s) =
    a == b'1' && (leb b'3' b && leb b b'9') && all_runes is_digit s && length s == 9
is_valid_chinese_phone _ = false

unfoldable pub mask_chinese_phone : Text → Text
mask_chinese_phone s = if ltb (length s) 11 then s else take 3 s ++ (codes "****" ++ drop 7 s)

abbrev pub unknown_ip : Text
unknown_ip = codes "unknown"

-- `strings.EqualFold` with "unknown": the letters of ASCII, and the Kelvin sign, which folds with k.
unfoldable pub fold_rune : ℕ → ℕ
fold_rune c = if leb 65 c && ltb c 91 then c + 32 else if c == 8490 then 107 else c

unfoldable pub is_unknown : Text → Bool
is_unknown s = list_beq (map fold_rune s) unknown_ip

-- The text before the first comma, all of it if there is none.
unfoldable pub before_comma : Text → Text
before_comma [] = []
before_comma (c ∷ s) = let rest = before_comma s in if c == b',' then [] else c ∷ rest

unfoldable pub has_comma : Text → Bool
has_comma [] = false
has_comma (c ∷ s) = c == b',' || has_comma s

unfoldable pub parse_client_ip : Text → Text
parse_client_ip header =
    let v = trim_space header in
    let w = if has_comma v then trim_space (before_comma v) else v in
    if is_empty v then [] else if is_empty w then [] else if is_unknown w then [] else w

abbrev pub client_ip_headers : List Text
client_ip_headers =
    codes "X-Forwarded-For"
    ∷ codes "Proxy-Client-IP"
    ∷ codes "WL-Proxy-Client-IP"
    ∷ codes "HTTP_CLIENT_IP"
    ∷ codes "HTTP_X_FORWARDED_FOR"
    ∷ codes "X-Real-IP"
    ∷ []

-- The first header, in order, that gives an address.
unfoldable pub probe : (Text → Text) → List Text → Option Text
probe header [] = none
probe header (h ∷ hs) =
    let rest = probe header hs in
    let ip = parse_client_ip (header h) in if is_empty ip then rest else some ip

-- A request with its headers and its remote address; `split_host` is net.SplitHostPort.
unfoldable pub host_or : Option Text → Text → Text
host_or none addr = addr
host_or (some []) addr = addr
host_or (some (c ∷ h)) addr = c ∷ h

unfoldable pub or_remote : (Text → Option Text) → Text → Option Text → Text
or_remote split_host addr (some ip) = ip
or_remote split_host addr none =
    if is_empty addr then unknown_ip else host_or (split_host addr) addr

unfoldable pub get_client_ip : (Text → Option Text) → Option ((Text → Text) × Text) → Text
get_client_ip split_host none = unknown_ip
get_client_ip split_host (some (header, addr)) =
    or_remote split_host addr (probe header client_ip_headers)

-- `net.ParseIP` after the sentinel.
unfoldable pub parse_ip : {A : Type 0} → (Text → Option A) → Text → Option A
parse_ip parse raw = let s = trim_space raw in if is_empty s || is_unknown s then none else parse s
