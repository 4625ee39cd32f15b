-- ===== src/Idempotency/Expiry.antt =====
-- The job that deletes expired records: GCJob of idempotency/service.go and DeleteExpired of
-- repo.go. Rows are deleted in the order of the table.
use synapse_go.Base.{
  ℕ, zero, suc, ◌+◌, ◌≤◌, ◌<◌, min, ◌≡◌, refl, sym, ap, ◌∙◌, ◌≢◌, ◌⊎◌, inl, inr, Bool, true, false,
  ◌||◌, Option, none, some, List, [], ◌∷◌, arith, ltb, if◌then◌else◌, ltb→lt, ltb_false→le,
  Bool-cases, length, ℤ, pos, negsuc, pos_part, ◌≤ℤ◌, ◌<ℤ◌, ltb_ℤ, nonpos, nat_eq, Text, text_eq,
  codes, Time,
}
use synapse_go.Job.Payload.{Value, payload_int}
use synapse_go.Idempotency.Rows.{Err, other, Result, ok, err, Scope, Record}
use synapse_go.Idempotency.Table.{scope_beq, find, ok_inj}

unfoldable pub delete_limit : ℤ → ℕ
delete_limit limit = if nonpos limit || ltb_ℤ (pos 10000) limit then 1000 else pos_part limit

-- The first rows that are expired, as many as the limit allows, and how many they were.
unfoldable pub delete_first : ℕ → Time → List Record → ℕ × List Record
delete_first zero before t = (0, t)
delete_first (suc n) before [] = (0, [])
delete_first (suc n) before (r ∷ t) = elim (ltb r.expires_at before) [
  | true ↦ let (k, t') = delete_first n before t in (suc k, t')
  | false ↦ let (k, t') = delete_first (suc n) before t in (k, r ∷ t')
]

unfoldable pub delete_expired : Time → ℤ → List Record → ℕ × List Record
unfolding delete_limit delete_first
delete_expired before limit t = delete_first (delete_limit limit) before t

-- `fault` when the database fails; the payload is that of a job.
unfoldable pub gc_job :
    (ℤ → ℤ) → Bool → Time → Option (Text → Option Value) → List Record → Option Err × List Record
unfolding payload_int
gc_job to_int fault now payload t =
    let limit = payload_int to_int payload (codes "limit") (pos 1000) in
    if fault then (some (other (codes "sql")), t) else (none, (delete_expired now limit t).1)

-- The rows that are expired at a time.
unfoldable pub expired_rows : Time → List Record → ℕ
expired_rows now [] = 0
expired_rows now (r ∷ t) = let n = expired_rows now t in if ltb r.expires_at now then suc n else n

-- The limit of a payload where it lies from 1 to 10000, and 1000 otherwise.
unfoldable pub IsLimit : ℤ → ℕ → Type 0
IsLimit n limit =
    ((n ≡ pos limit) × (1 ≤ limit) × (limit ≤ 10000))
    ⊎ ((limit ≡ 1000) × ((n ≤ℤ pos 0) ⊎ (pos 10000 <ℤ n)))

delete_limit-IsLimit : (n : ℤ) → IsLimit n (delete_limit n)
unfolding IsLimit delete_limit
delete_limit-IsLimit (pos zero) = inr (refl, inl (omega arith))
delete_limit-IsLimit (negsuc n) = inr (refl, inl (omega arith))
delete_limit-IsLimit (pos (suc n)) = elim (Bool-cases (ltb 10000 (suc n))) [
  | inl over ↦
      let thousand : delete_limit (pos (suc n)) ≡ 1000 = ground arith in
      inr (thousand, inr (ground arith))
  | inr within ↦
      let same : delete_limit (pos (suc n)) ≡ suc n = ground arith in
      inl (ap pos (sym same), ground arith, ground arith)
]

past_expired :
    (k : Scope) (r x : Record) (t : List Record) (before : Time)
    → find k (x ∷ t) ≡ ok r
    → before ≤ r.expires_at
    → x.expires_at < before
    → find k t ≡ ok r
unfolding find
past_expired k r x t before h live dead = elim (Bool-cases (scope_beq x.scope k)) [
  | inl hit ↦
      let same : x ≡ r = ok_inj x r (rw hit at h) in
      absurd (omega (arith, ap (λ (y : Record). y.expires_at) same))
  | inr miss ↦ rw miss at h
]

find-delete_first :
    (n : ℕ) (before : Time) (k : Scope) (r : Record) (t : List Record)
    → find k t ≡ ok r
    → before ≤ r.expires_at
    → find k (delete_first n before t).1 ≡ ok r
unfolding find delete_first
find-delete_first zero before k r t h live = h
find-delete_first (suc n) before k r [] h live = h
find-delete_first (suc n) before k r (x ∷ t) h live = elim (Bool-cases (ltb x.expires_at before)) [
  | inl dead ↦
      let rest =
        find-delete_first n before k r t
          (past_expired k r x t before h live (ltb→lt x.expires_at before dead)) live in
      ground (arith, rest)
  | inr kept ↦ elim (Bool-cases (scope_beq x.scope k)) [
    | inl hit ↦ ground arith
    | inr miss ↦
        let rest = find-delete_first (suc n) before k r t (rw miss at h) live in
        ground (arith, rest)
  ]
]

delete_first-counts :
    (n : ℕ) (before : Time) (t : List Record)
    → let (k, t') = delete_first n before t in
      (k ≡ min n (expired_rows before t))
      × (length t ≡ k + length t')
      × (expired_rows before t ≡ k + expired_rows before t')
unfolding delete_first expired_rows
delete_first-counts zero before t = ground arith
delete_first-counts (suc n) before [] = ground arith
delete_first-counts (suc n) before (x ∷ t) = elim (Bool-cases (ltb x.expires_at before)) [
  | inl dead ↦ let (a, b, c) = delete_first-counts n before t in ground arith
  | inr kept ↦ let (a, b, c) = delete_first-counts (suc n) before t in ground arith
]

ok_not_err : (x : Record) (e : Err) → ok x ≢ err e
ok_not_err x e h = absurd (ground arith)

missing-delete_first :
    (n : ℕ) (before : Time) (k : Scope) (e : Err) (t : List Record)
    → find k t ≡ err e
    → find k (delete_first n before t).1 ≡ err e
unfolding find delete_first
missing-delete_first zero before k e t h = h
missing-delete_first (suc n) before k e [] h = h
missing-delete_first (suc n) before k e (x ∷ t) h = elim (Bool-cases (scope_beq x.scope k)) [
  | inl hit ↦ absurd (ok_not_err x e (rw hit at h))
  | inr miss ↦
      let a = missing-delete_first n before k e t (rw miss at h) in
      let b = missing-delete_first (suc n) before k e t (rw miss at h) in
      elim (Bool-cases (ltb x.expires_at before)) [
        | inl dead ↦ ground arith
        | inr kept ↦ ground arith
      ]
]

Result-cases : (o : Result Record) → ((r : Record) × (o ≡ ok r)) ⊎ ((e : Err) × (o ≡ err e))
Result-cases (ok r) = inl (r, refl)
Result-cases (err e) = inr (e, refl)

-- A key is found as before, unless its record was expired.
unfoldable pub IsKept : Time → Scope → List Record → List Record → Type 0
IsKept now k t t' =
    (find k t' ≡ find k t) ⊎ ((r : Record) × (find k t ≡ ok r) × (r.expires_at < now))

delete_first-IsKept :
    (n : ℕ) (now : Time) (k : Scope) (t : List Record) → IsKept now k t (delete_first n now t).1
unfolding IsKept
delete_first-IsKept n now k t = elim (Result-cases (find k t)) [
  | inl (r, found) ↦ elim (Bool-cases (ltb r.expires_at now)) [
    | inl dead ↦ inr (r, found, ltb→lt r.expires_at now dead)
    | inr live ↦
        inl (find-delete_first n now k r t found (ltb_false→le r.expires_at now live) ∙ sym found)
  ]
  | inr (e, missing) ↦ inl (missing-delete_first n now k e t missing ∙ sym missing)
]

-- A run of the job on any table, when the database does not fail, deletes as many rows as are
-- expired, up to a limit, and expired ones only: that limit is the payload's, which is 1000 when it
-- names none, and 1000 where it is not from 1 to 10000. A key is found afterwards as it was before,
-- or not found as before, unless its record was expired.
pub gc_job_lem :
    (to_int : ℤ → ℤ) (now : Time) (payload : Option (Text → Option Value)) (k : Scope)
    (t : List Record)
    → let t' = (gc_job to_int false now payload t).1 in
      (limit : ℕ) × IsLimit (payload_int to_int payload (codes "limit") (pos 1000)) limit
      × (length t ≡ min limit (expired_rows now t) + length t')
      × (expired_rows now t ≡ min limit (expired_rows now t) + expired_rows now t')
      × IsKept now k t t'
unfolding gc_job delete_expired
gc_job_lem to_int now payload k t =
    let asked = payload_int to_int payload (codes "limit") (pos 1000) in
    let n = delete_limit asked in
    let (a, b, c) = delete_first-counts n now t in
    (n, delete_limit-IsLimit asked, rw⁻¹ a b, rw⁻¹ a c, delete_first-IsKept n now k t)
