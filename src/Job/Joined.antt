-- ===== src/Job/Joined.antt =====
-- Fields joined by single spaces, and what they contain.
use synapse_go.Base.{
  ℕ, ◌≡◌, refl, ap, ◌∙◌, ◌≢◌, inl, inr, false, ◌||◌, List, [], ◌∷◌, ◌++◌, arith, Bool-cases, All,
  nat_eq, Text, text_eq, is_empty, is_space, push_word, words, fields, words_one, words-append,
  words-space, pushed,
}
use mathlib.Core.List.{append-nil}
use synapse_go.Job.Cron.{space, contains_rune, join}

-- A field: not empty and without white space.
unfoldable pub IsWord : Text → Type 0
IsWord w = (is_empty w ≡ false) × All (λ c. is_space c ≡ false) w

push_word-IsWord :
    (w : Text) (ws : List Text)
    → All (λ c. is_space c ≡ false) w
    → All IsWord ws
    → All IsWord (push_word w ws)
unfolding push_word IsWord
push_word-IsWord [] ws p q = q
push_word-IsWord (c ∷ w) ws p q = ((refl, p), q)

words-IsWord : (s : Text) → All (λ c. is_space c ≡ false) (words s).0 × All IsWord (words s).1
unfolding words
words-IsWord [] = (tt, tt)
words-IsWord (c ∷ s) =
    let (p, q) = words-IsWord s in
    elim (Bool-cases (is_space c)) [
      | inl e ↦ rw e (tt, push_word-IsWord (words s).0 (words s).1 p q)
      | inr e ↦ rw e ((e, p), q)
    ]

pub fields-IsWord : (s : Text) → All IsWord (fields s)
unfolding fields
fields-IsWord s = let (p, q) = words-IsWord s in push_word-IsWord (words s).0 (words s).1 p q

word_pushed : (w : Text) (ws : List Text) → is_empty w ≡ false → push_word w ws ≡ w ∷ ws
unfolding push_word
word_pushed [] ws e = absurd (ground arith)
word_pushed (c ∷ w) ws e = refl

pub fields-join : (ws : List Text) → All IsWord ws → fields (join ws) ≡ ws
unfolding join fields push_word IsWord words
fields-join [] h = refl
fields-join (w ∷ []) h =
    ap (λ (x : Text × List Text). push_word x.0 x.1) (words_one w h.0.1) ∙ pushed w h.0.0
fields-join (w ∷ v ∷ ws) h =
    let rest = fields-join (v ∷ ws) h.1 in
    ap (λ (x : Text × List Text). push_word x.0 x.1)
      (words-append w (space ∷ join (v ∷ ws)) h.0.1
        ∙ ap (λ (x : Text × List Text). (w ++ x.0, x.1)) (words-space (join (v ∷ ws))))
    ∙ ap (λ x. push_word x (fields (join (v ∷ ws)))) (append-nil w)
    ∙ ap (push_word w) rest
    ∙ word_pushed w (v ∷ ws) h.0.0

pub contains_rune-append :
    (r : ℕ) (a b : Text) → contains_rune r (a ++ b) ≡ (contains_rune r a || contains_rune r b)
unfolding contains_rune
contains_rune-append r [] b = refl
contains_rune-append r (c ∷ a) b = ground (arith, contains_rune-append r a b)

unfoldable pub Without : ℕ → Text → Type 0
Without r s = contains_rune r s ≡ false

push_word-Without :
    (r : ℕ) (w : Text) (ws : List Text)
    → Without r w
    → All (Without r) ws
    → All (Without r) (push_word w ws)
unfolding push_word
push_word-Without r [] ws p q = q
push_word-Without r (c ∷ w) ws p q = (p, q)

words-Without :
    (r : ℕ) (s : Text) → Without r s → Without r (words s).0 × All (Without r) (words s).1
unfolding words Without contains_rune
words-Without r [] h = (refl, tt)
words-Without r (c ∷ s) h =
    let (p, q) = words-Without r s (ground arith) in
    elim (Bool-cases (is_space c)) [
      | inl e ↦ rw e (refl, push_word-Without r (words s).0 (words s).1 p q)
      | inr e ↦ rw e (ground arith, q)
    ]

join-Without : (r : ℕ) (ws : List Text) → r ≢ space → All (Without r) ws → Without r (join ws)
unfolding join Without contains_rune
join-Without r [] n h = refl
join-Without r (w ∷ []) n h = h.0
join-Without r (w ∷ v ∷ ws) n h =
    let rest = join-Without r (v ∷ ws) n h.1 in
    contains_rune-append r w (space ∷ join (v ∷ ws)) ∙ ground (arith, h.0)

pub fields-Without : (r : ℕ) (s : Text) → r ≢ space → Without r s → Without r (join (fields s))
unfolding fields
fields-Without r s n h =
    let (p, q) = words-Without r s h in
    join-Without r (fields s) n (push_word-Without r (words s).0 (words s).1 p q)
