-- ===== src/Base/Words.antt =====
-- `strings.Fields`.
use mathlib.Core.Path.{◌≡◌, refl}
use mathlib.Core.List.{List, [], ◌∷◌, ◌++◌}
use mathlib.Core.Bool.{false}
use native.Mathlib.Omega.{arith}
use synapse_go.Base.Tests.{if◌then◌else◌}
use synapse_go.Base.Lists.{All}
use synapse_go.Base.Strings.{Text, is_empty, is_space}

-- Adds the word before a space, if there is one.
unfoldable pub push_word : Text → List Text → List Text
push_word [] ws = ws
push_word (c ∷ w) ws = (c ∷ w) ∷ ws

-- The word that a text begins with, if no space stands first, and the words after it.
unfoldable pub words : Text → Text × List Text
unfolding push_word
words [] = ([], [])
words (c ∷ s) = let (w, ws) = words s in if is_space c then ([], push_word w ws) else (c ∷ w, ws)

-- `strings.Fields`.
unfoldable pub fields : Text → List Text
unfolding words push_word
fields s = let (w, ws) = words s in push_word w ws

pub words_one : (w : Text) → All (λ c. is_space c ≡ false) w → words w ≡ (w, [])
unfolding words
words_one [] h = refl
words_one (c ∷ w) h = rw (words_one w h.1, h.0) refl

pub words-append :
    (w s : Text)
    → All (λ c. is_space c ≡ false) w
    → words (w ++ s) ≡ (w ++ (words s).0, (words s).1)
unfolding words
words-append [] s h = refl
words-append (c ∷ w) s h = rw (words-append w s h.1, h.0) refl

pub words-space : (s : Text) → words (b' ' ∷ s) ≡ ([], push_word (words s).0 (words s).1)
unfolding words is_space
words-space s = refl

pub pushed : (token : Text) → is_empty token ≡ false → push_word token [] ≡ token ∷ []
unfolding push_word
pushed [] e = absurd (ground arith)
pushed (c ∷ w) e = refl
