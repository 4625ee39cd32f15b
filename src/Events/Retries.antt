-- ===== src/Events/Retries.antt =====
-- The schedule of the retries of an event that cannot be delivered.
use synapse_go.Base.{
  ℕ, ◌+◌, ◌*◌, ◌^◌, min, ◌≡◌, refl, ap, ◌∙◌, inl, inr, false, List, [], ◌∷◌, ◌++◌, arith, leb,
  if◌then◌else◌, Bool-cases, length, nat_eq, text_eq, Time, seconds,
}
use synapse_go.Events.{Row, is_due, failed_row}

-- A row after failures at these times, the first one first.
unfoldable pub fail_all : List Time → Row → Row
fail_all [] r = r
fail_all (now ∷ times) r = fail_all times (failed_row now r)

fail_all-append :
    (times : List Time) (last : Time) (r : Row)
    → fail_all (times ++ last ∷ []) r ≡ failed_row last (fail_all times r)
unfolding fail_all
fail_all-append [] last r = refl
fail_all-append (now ∷ times) last r = fail_all-append times last (failed_row now r)

retry_count-fail_all :
    (times : List Time) (r : Row) → (fail_all times r).retry_count ≡ r.retry_count + length times
unfolding fail_all failed_row
retry_count-fail_all [] r = omega arith
retry_count-fail_all (now ∷ times) r = ground (arith, retry_count-fail_all times (failed_row now r))

-- After n + 1 failures of a new row, the last one at this time: it has failed for good, and is
-- never due again, exactly when n is 5 or more; before that it is due from ten seconds times the
-- power of two of n + 1, which is at most 32, after the last failure on.
pub retry_schedule :
    (times : List Time) (last now : Time) (r : Row)
    → r.retry_count ≡ 0
    → let n = length times in
      let failed = fail_all (times ++ last ∷ []) r in
      (failed.retry_count ≡ n + 1)
      × (failed.status ≡ (if leb 5 n then 2 else 0))
      × (is_due now failed
          ≡ (if leb 5 n then false else leb (last + seconds (2 ^ min (n + 1) 5 * 10)) now))
unfolding failed_row is_due
retry_schedule times last now r fresh =
    let count : (fail_all times r).retry_count ≡ length times =
      ground (arith, retry_count-fail_all times r) in
    let e = fail_all-append times last r in
    (
      ap (λ (x : Row). x.retry_count) e ∙ ap (λ k. k + 1) count,
      ap (λ (x : Row). x.status) e ∙ ap (λ k. if leb 5 k then 2 else 0) count,
      ap (is_due now) e
          ∙ ap (λ k. is_due now (failed_row last (record r { retry_count = k }))) count
          ∙ due_after (length times),
    )
  where
    due_after :
        (n : ℕ)
        → is_due now (failed_row last (record r { retry_count = n }))
          ≡ (if leb 5 n then false else leb (last + seconds (2 ^ min (n + 1) 5 * 10)) now)
    due_after n = elim (Bool-cases (leb 5 n)) [
      | inl over ↦ rw over refl
      | inr within ↦ rw within refl
    ]
