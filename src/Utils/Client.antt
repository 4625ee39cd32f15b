-- ===== src/Utils/Client.antt =====
-- Which address of a request is taken, and its form.
use synapse_go.Base.{
  ℕ, ◌≡◌, refl, sym, ap, ◌∙◌, ◌⊎◌, inl, inr, Bool, true, false, some, List, [], ◌∷◌, ◌++◌, arith,
  ◌==◌, ==_iff, Bool-cases, All, nat_eq, Text, text_eq, is_empty, is_space, trim_left, trim_right,
  trim, trim_space, trim_idem,
}
use synapse_go.Utils.{is_unknown, before_comma, has_comma, parse_client_ip, probe}

has_comma-trim_left :
    (cut : ℕ → Bool) (s : Text) → has_comma s ≡ false → has_comma (trim_left cut s) ≡ false
unfolding has_comma trim_left
has_comma-trim_left cut [] h = refl
has_comma-trim_left cut (c ∷ s) h = ground (arith, has_comma-trim_left cut s)

has_comma-trim_right :
    (cut : ℕ → Bool) (s : Text) → has_comma s ≡ false → has_comma (trim_right cut s) ≡ false
unfolding has_comma trim_right
has_comma-trim_right cut [] h = refl
has_comma-trim_right cut (c ∷ s) h = ground (arith, has_comma-trim_right cut s)

has_comma-before_comma : (s : Text) → has_comma (before_comma s) ≡ false
unfolding has_comma before_comma
has_comma-before_comma [] = refl
has_comma-before_comma (c ∷ s) = ground (arith, has_comma-before_comma s)

first_address : (v : Text) → has_comma (trim_space (before_comma v)) ≡ false
unfolding trim
first_address v =
    has_comma-trim_right is_space (trim_left is_space (before_comma v))
      (has_comma-trim_left is_space (before_comma v) (has_comma-before_comma v))

-- `item` is what stands before the first comma of `v`, or all of `v` when it has no comma.
unfoldable pub IsFirstItem : Text → Text → Type 0
IsFirstItem item v =
    (has_comma item ≡ false) × ((v ≡ item) ⊎ ((rest : Text) × (v ≡ item ++ b',' ∷ rest)))

before_comma-IsFirstItem : (v : Text) → IsFirstItem (before_comma v) v
unfolding IsFirstItem has_comma before_comma
before_comma-IsFirstItem [] = (refl, inl refl)
before_comma-IsFirstItem (c ∷ v) = elim (Bool-cases (c == b',')) [
  | inl hit ↦ rw hit (refl, inr (v, ap (λ d. d ∷ v) ((==_iff c b',').0 hit)))
  | inr miss ↦
      let (clear, split) = before_comma-IsFirstItem v in
      rw miss (
        ground (arith, clear),
        elim split [
          | inl all_of ↦ inl (ap (λ w. c ∷ w) all_of)
          | inr (rest, e) ↦ inr (rest, ap (λ w. c ∷ w) e)
        ],
      )
]

no_comma-IsFirstItem : (v : Text) → has_comma v ≡ false → IsFirstItem v v
unfolding IsFirstItem
no_comma-IsFirstItem v h = (h, inl refl)

parse_client_ip-first :
    (header ip : Text)
    → parse_client_ip header ≡ ip
    → is_empty ip ≡ false
    → (item : Text) × IsFirstItem item (trim_space header) × (trim_space item ≡ ip)
unfolding parse_client_ip
parse_client_ip-first header ip h e =
    let v = trim_space header in
    elim (Bool-cases (has_comma v)) [
      | inl listed ↦ (before_comma v, before_comma-IsFirstItem v, ground (arith, listed))
      | inr single ↦
          (v, no_comma-IsFirstItem v single, ground (arith, single, trim_idem is_space header))
    ]

-- An address, as it is taken from a header: one item of a list, without spaces at its ends, and not
-- the sentinel.
unfoldable pub IsAddress : Text → Type 0
IsAddress ip =
    (is_empty ip ≡ false) × (has_comma ip ≡ false) × (trim_space ip ≡ ip) × (is_unknown ip ≡ false)

parsed-IsAddress :
    (header ip : Text) → parse_client_ip header ≡ ip → is_empty ip ≡ false → IsAddress ip
unfolding parse_client_ip IsAddress
parsed-IsAddress header ip h e =
    let v = trim_space header in
    ground (arith, first_address v, trim_idem is_space header, trim_idem is_space (before_comma v))

empty_text : (s : Text) → is_empty s ≡ true → s ≡ []
empty_text [] h = refl
empty_text (c ∷ s) h = absurd (ground arith)

-- The headers that are probed are read in order: the address that is found is that of the first
-- header which gives one, and it is the first item of that header's list, trimmed, not empty and not
-- the sentinel.
pub probe_first :
    (header : Text → Text) (hs : List Text) (ip : Text)
    → probe header hs ≡ some ip
    → IsAddress ip
      × ((before : List Text) × (h : Text) × (after_it : List Text) × (hs ≡ before ++ h ∷ after_it)
          × All (λ j. parse_client_ip (header j) ≡ []) before
          × ((item : Text) × IsFirstItem item (trim_space (header h)) × (trim_space item ≡ ip)))
unfolding probe
probe_first header [] ip e = absurd (ground arith)
probe_first header (h ∷ hs) ip e = elim (Bool-cases (is_empty (parse_client_ip (header h)))) [
  | inl blank ↦
      let later : probe header hs ≡ some ip = ground (arith, blank, e) in
      let (good, (before, j, after_it, split, blanks, found)) = probe_first header hs ip later in
      (
        good,
        (
          h ∷ before,
          j,
          after_it,
          ap (λ t. h ∷ t) split,
          (empty_text (parse_client_ip (header h)) blank, blanks),
          found,
        ),
      )
  | inr given ↦
      let found : parse_client_ip (header h) ≡ ip = ground (arith, given, e) in
      (
        parsed-IsAddress (header h) ip found (ap is_empty (sym found) ∙ given),
        (
          [],
          h,
          hs,
          refl,
          tt,
          parse_client_ip-first (header h) ip found (ap is_empty (sym found) ∙ given),
        ),
      )
]
