-- ===== src/Ratelimit/Estimator.antt =====
-- ratelimit/estimator.go. What encoding/json reads of a body is an argument: the lengths in bytes of
-- the contents of its messages, marshalled where they are no strings, and max_tokens; nothing where
-- the body is no JSON.
use synapse_go.Base.{
  ℕ, ◌+◌, ◌/◌, ◌≤◌, Option, none, some, List, [], ◌∷◌, arith, ◌==◌, ltb, if◌then◌else◌, ℤ, pos,
  pos_part, ltb_ℤ, nonpos, nat_eq, text_eq,
}

abbrev pub max_input_token_estimate : ℕ
max_input_token_estimate = 128000

unfoldable pub total_chars : Option (List ℕ) → ℕ
total_chars none = 0
total_chars (some []) = 0
total_chars (some (n ∷ ns)) = n + total_chars (some ns)

unfoldable pub estimate_input_tokens : ℕ → Option (List ℕ) → ℕ
estimate_input_tokens body_len contents =
    let chars = total_chars contents in
    let total = if chars == 0 then body_len else chars in
    let tokens = total / 4 in
    let some_tokens = if ltb tokens 1 then 1 else tokens in
    if ltb max_input_token_estimate some_tokens then max_input_token_estimate else some_tokens

unfoldable pub estimate_output_tokens : Option ℤ → ℕ
estimate_output_tokens none = 500
estimate_output_tokens (some n) =
    if nonpos n then 500 else if ltb_ℤ (pos 500) n then 500 else pos_part n

unfoldable pub estimate_total_tokens : ℕ → Option (List ℕ) → Option ℤ → ℕ
unfolding estimate_input_tokens estimate_output_tokens
estimate_total_tokens body_len contents max_tokens =
    estimate_input_tokens body_len contents + estimate_output_tokens max_tokens

-- An estimate is never zero and never above 128500 tokens, whatever the body: a request always
-- counts against its limit, and none counts more than that.
estimate_within :
    (body_len : ℕ) (contents : Option (List ℕ)) (max_tokens : Option ℤ)
    → let n = estimate_total_tokens body_len contents max_tokens in (2 ≤ n) × (n ≤ 128500)
unfolding estimate_total_tokens estimate_input_tokens
estimate_within body_len contents max_tokens =
    let (low, high) = output_within max_tokens in (ground (arith, low), ground (arith, high))
  where
    output_within :
        (max_tokens : Option ℤ)
        → (1 ≤ estimate_output_tokens max_tokens) × (estimate_output_tokens max_tokens ≤ 500)
    output_within none = unfold estimate_output_tokens in (omega arith, omega arith)
    output_within (some n) = unfold estimate_output_tokens in (ground arith, ground arith)
