-- ===== src/Job/Normalized.antt =====
-- What Normalize of job/cronguard.go returns.
use synapse_go.Base.{
  ◌≡◌, refl, sym, ap, ap₂, ◌∙◌, inl, inr, Bool, true, false, not, some, List, [], ◌∷◌, ◌++◌, arith,
  ◌==◌, ==_iff, Sum-cases, length, All, nat_eq, Text, text_eq, is_empty, is_space, trim_space,
  has_prefix, last_ok, trim_id, trim_prefix, fields,
}
use synapse_go.Job.Cron.{
  space, before_space, after_space, contains_rune, contains_any, join, prefix, schedule_after,
  schedule_part, check_schedule, normalize,
}
use synapse_go.Job.Joined.{IsWord, fields-IsWord, fields-join, Without, fields-Without}

before-append :
    (tz s : Text)
    → Without space tz
    → (before_space (tz ++ space ∷ s) ≡ tz) × (after_space (tz ++ space ∷ s) ≡ some s)
unfolding before_space after_space Without contains_rune
before-append [] s h = (refl, refl)
before-append (c ∷ tz) s h = let (a, b) = before-append tz s (ground arith) in ground arith

before_space-Without : (s : Text) → Without space (before_space s)
unfolding before_space Without contains_rune
before_space-Without [] = refl
before_space-Without (c ∷ s) = ground (arith, before_space-Without s)

prefix-split : (s p : Text) → has_prefix s p ≡ true → s ≡ p ++ trim_prefix s p
unfolding has_prefix trim_prefix
prefix-split s [] h = refl
prefix-split [] (q ∷ p) h = absurd (ground arith)
prefix-split (c ∷ s) (q ∷ p) h = ground (arith, prefix-split s p)

before_space-prefix : (s : Text) → before_space (prefix ++ s) ≡ prefix ++ before_space s
unfolding before_space
before_space-prefix s = refl

-- The form of a normalized line: a time zone and five fields.
IsNormal : Text → Text → Text → Type 0
IsNormal tz s n =
    (is_empty (trim_space tz) ≡ false)
    × Without space tz
    × (contains_any (b'?' ∷ b'L' ∷ b'W' ∷ b'#' ∷ []) s ≡ false)
    × ((length (fields s) == 5) ≡ true)
    × (n ≡ prefix ++ (tz ++ space ∷ join (fields s)))

checked :
    (expr s n : Text) (has_tz : Bool)
    → check_schedule expr (inr (has_tz, s)) ≡ inr n
    → (has_tz ≡ true)
      × (contains_any (b'?' ∷ b'L' ∷ b'W' ∷ b'#' ∷ []) s ≡ false)
      × ((length (fields s) == 5) ≡ true)
      × (n ≡ before_space expr ++ space ∷ join (fields s))
unfolding check_schedule
checked expr s n has_tz h = ground arith

scheduled :
    (expr s : Text) (has_tz : Bool)
    → schedule_part expr ≡ inr (has_tz, s)
    → has_tz ≡ true
    → let rest = trim_prefix expr prefix in
      (has_prefix expr prefix ≡ true)
      × (after_space rest ≡ some s)
      × (is_empty (trim_space (before_space rest)) ≡ false)
unfolding schedule_part schedule_after
scheduled expr s has_tz h e = ground arith

normalize-IsNormal :
    (raw n : Text) → normalize raw ≡ inr n → (tz : Text) × (s : Text) × IsNormal tz s n
unfolding normalize IsNormal check_schedule
normalize-IsNormal raw n h =
    let expr = trim_space raw in
    elim (Sum-cases (schedule_part expr)) [
      | inl (e, bad) ↦ absurd (ground (arith, ap (check_schedule expr) (sym bad) ∙ h))
      | inr (p, good) ↦
          let (has, clean, five, en) =
            checked expr p.1 n p.0 (ap (check_schedule expr) (sym good) ∙ h) in
          let (pre, after_it, some_tz) = scheduled expr p.1 p.0 good has in
          let rest = trim_prefix expr prefix in
          let before : before_space expr ≡ prefix ++ before_space rest =
            ap before_space (prefix-split expr prefix pre) ∙ before_space-prefix rest in
          (
            before_space rest,
            p.1,
            (
              some_tz,
              before_space-Without rest,
              clean,
              five,
              en ∙ ap (λ b. b ++ space ∷ join (fields p.1)) before,
            ),
          )
    ]

last_ok-append : (a b : Text) → is_empty b ≡ false → last_ok is_space (a ++ b) ≡ last_ok is_space b
unfolding last_ok
last_ok-append [] b h = refl
last_ok-append (c ∷ []) [] h = absurd (ground arith)
last_ok-append (c ∷ []) (d ∷ b) h = refl
last_ok-append (c ∷ d ∷ a) b h = last_ok-append (d ∷ a) b h

last_ok-IsWord : (w : Text) → IsWord w → last_ok is_space w ≡ true
unfolding IsWord last_ok
last_ok-IsWord [] h = refl
last_ok-IsWord (c ∷ []) h = ap not h.1.0
last_ok-IsWord (c ∷ d ∷ w) h = last_ok-IsWord (d ∷ w) (refl, h.1.1)

join_some : (w : Text) (ws : List Text) → IsWord w → is_empty (join (w ∷ ws)) ≡ false
unfolding join IsWord
join_some w [] h = h.0
join_some [] (v ∷ ws) h = refl
join_some (c ∷ w) (v ∷ ws) h = refl

last_ok-join : (ws : List Text) → All IsWord ws → last_ok is_space (join ws) ≡ true
unfolding join last_ok
last_ok-join [] h = refl
last_ok-join (w ∷ []) h = last_ok-IsWord w h.0
last_ok-join (w ∷ v ∷ ws) h =
    last_ok-append w (space ∷ join (v ∷ ws)) refl
    ∙ last_ok-append (space ∷ []) (join (v ∷ ws)) (join_some v ws h.1.0)
    ∙ last_ok-join (v ∷ ws) h.1

five_some : (ws : List Text) → (length ws == 5) ≡ true → All IsWord ws → is_empty (join ws) ≡ false
five_some [] e h = absurd (ground arith)
five_some (w ∷ ws) e h = join_some w ws h.0

quartz_again :
    (s : Text)
    → contains_any (b'?' ∷ b'L' ∷ b'W' ∷ b'#' ∷ []) s ≡ false
    → contains_any (b'?' ∷ b'L' ∷ b'W' ∷ b'#' ∷ []) (join (fields s)) ≡ false
unfolding contains_any Without
quartz_again s h = ground (
  arith,
  fields-Without b'?' s (λ e. absurd (ground arith)),
  fields-Without b'L' s (λ e. absurd (ground arith)),
  fields-Without b'W' s (λ e. absurd (ground arith)),
  fields-Without b'#' s (λ e. absurd (ground arith)),
)

after_some : (tz j : Text) → is_empty (tz ++ space ∷ j) ≡ false
after_some [] j = refl
after_some (c ∷ tz) j = refl

trimmed :
    (tz j : Text)
    → is_empty j ≡ false
    → last_ok is_space j ≡ true
    → trim_space (prefix ++ (tz ++ space ∷ j)) ≡ prefix ++ (tz ++ space ∷ j)
unfolding is_space
trimmed tz j e l = trim_id is_space (prefix ++ (tz ++ space ∷ j)) refl (
    last_ok-append prefix (tz ++ space ∷ j) (after_some tz j)
    ∙ last_ok-append tz (space ∷ j) refl
    ∙ last_ok-append (space ∷ []) j e
    ∙ l)

parted :
    (tz j : Text)
    → Without space tz
    → is_empty (trim_space tz) ≡ false
    → schedule_part (prefix ++ (tz ++ space ∷ j)) ≡ inr (true, j)
unfolding schedule_part schedule_after has_prefix trim_prefix
parted tz j clear some_tz =
    let (before, after_it) = before-append tz j clear in rw after_it (rw before (rw some_tz refl))

accepted :
    (expr j : Text)
    → contains_any (b'?' ∷ b'L' ∷ b'W' ∷ b'#' ∷ []) j ≡ false
    → (length (fields j) == 5) ≡ true
    → check_schedule expr (inr (true, j)) ≡ inr (before_space expr ++ space ∷ join (fields j))
unfolding check_schedule
accepted expr j clean five = ground arith

normal_again : (tz s n : Text) → IsNormal tz s n → normalize n ≡ inr n
unfolding normalize IsNormal
normal_again tz s n (some_tz, clear, clean, five, e) =
    let ws = fields-IsWord s in
    let j = join (fields s) in
    let line = prefix ++ (tz ++ space ∷ j) in
    let words_same = fields-join (fields s) ws in
    let before : before_space line ≡ prefix ++ tz =
      before_space-prefix (tz ++ space ∷ j) ∙ ap (λ b. prefix ++ b) (before-append tz j clear).0 in
    ap normalize e
    ∙ ap (λ x. check_schedule x (schedule_part x))
        (trimmed tz j (five_some (fields s) five ws) (last_ok-join (fields s) ws))
    ∙ ap (check_schedule line) (parted tz j clear some_tz)
    ∙ accepted line j (quartz_again s clean) (ap (λ x. length x == 5) words_same ∙ five)
    ∙ ap₂ (λ b x. inr (b ++ space ∷ join x)) before words_same
    ∙ ap inr (sym e)

-- What Normalize returns is normal: given again, it is returned unchanged, and it is the prefix, a
-- time zone that is not blank and has no space, and five fields, each without white space and not
-- empty, with single spaces between them.
pub normalize_stable :
    (raw n : Text)
    → normalize raw ≡ inr n
    → (normalize n ≡ inr n)
      × ((tz : Text) × (ws : List Text) × (n ≡ prefix ++ (tz ++ space ∷ join ws))
          × (is_empty (trim_space tz) ≡ false)
          × (contains_rune space tz ≡ false)
          × All IsWord ws
          × (length ws ≡ 5))
unfolding IsNormal Without
normalize_stable raw n h =
    let (tz, s, f) = normalize-IsNormal raw n h in
    let (some_tz, clear, _, five, e) = f in
    (
      normal_again tz s n f,
      (tz, fields s, e, some_tz, clear, fields-IsWord s, (==_iff (length (fields s)) 5).0 five),
    )
