-- ===== src/Idempotency/Replay.antt =====
-- What a second request with the same key is told.
use synapse_go.Base.{
  ℕ, ◌+◌, ◌≤◌, ◌≡◌, refl, sym, ap, ◌∙◌, ◌≢◌, true, false, none, [], arith, ℤ, pos, ◌≤ℤ◌, nat_eq,
  list_beq_iff, Text, text_eq, Cases, Time,
}
use synapse_go.Idempotency.Rows.{
  Status, in_progress, completed, completed_sensitive, not_found, request_mismatch,
  request_in_process, sensitive_response, ok, err, Record, Repository, completed_row, Laws,
}
use synapse_go.Idempotency.{
  BeginInput, started, replay, running_timeout, normalize_input, valid_input, stale, by_status,
  decision_for_existing, new_record, begin, complete,
}

module _ (R : Repository) (u : Cases) where
  open R use {Store, create, get, restart}

  -- A request whose scope is new is started, on a record in progress that the store then holds.
  pub start :
      (now : Time) (raw : BeginInput) (r : Record) (s s' : Store)
      → valid_input (normalize_input u raw) ≡ true
      → get (normalize_input u raw).scope s ≡ err not_found
      → create (new_record R now (normalize_input u raw)) s ≡ (ok r, s')
      → begin R u now raw s ≡ (ok (started r), s')
  unfolding begin
  start now raw r s s' v absent made = rw (v, absent, made)

  known :
      (now : Time) (raw : BeginInput) (r : Record) (s : Store)
      → valid_input (normalize_input u raw) ≡ true
      → get (normalize_input u raw).scope s ≡ ok r
      → begin R u now raw s ≡ decision_for_existing R now r (normalize_input u raw).request_hash s
  unfolding begin
  known now raw r s v found = rw (v, found)

  -- A key that is known under another request hash is refused, whatever the state of its record,
  -- and nothing is written.
  reuse_refused :
      (now : Time) (raw : BeginInput) (r : Record) (s : Store)
      → valid_input (normalize_input u raw) ≡ true
      → get (normalize_input u raw).scope s ≡ ok r
      → r.request_hash ≢ (normalize_input u raw).request_hash
      → begin R u now raw s ≡ (err request_mismatch, s)
  reuse_refused now raw r s v found differ = known now raw r s v found ∙ mismatch
    where
      mismatch :
          decision_for_existing R now r (normalize_input u raw).request_hash s
          ≡ (err request_mismatch, s)
      mismatch =
          unfold decision_for_existing in
          ground (arith, list_beq_iff r.request_hash (normalize_input u raw).request_hash)

  module _ (laws : Laws R) where
    same_hash :
        (now : Time) (r : Record) (hash : Text) (s : Store)
        → r.request_hash ≡ hash
        → decision_for_existing R now r hash s ≡ by_status R r.status now r hash s
    unfolding decision_for_existing
    same_hash now r hash s e = ground (arith, list_beq_iff r.request_hash hash)

    created :
        (now : Time) (i : BeginInput) (r : Record) (s s' : Store)
        → create (new_record R now i) s ≡ (ok r, s')
        → (get i.scope s' ≡ ok r) × (r ≡ record (new_record R now i) { id = r.id }) × (r.id ≢ 0)
    unfolding new_record
    created now i r s s' made =
        let (e, n) = laws.create_id (new_record R now i) r s s' made in
        (laws.get-create (new_record R now i) r s s' made, e, n)

    hash_of :
        (t : Time) (i : BeginInput) (id : ℕ)
        → (record (new_record R t i) { id = id }).request_hash ≡ i.request_hash
    unfolding new_record
    hash_of t i id = refl

    running :
        (t now : Time) (i : BeginInput) (id : ℕ) (s : Store)
        → now ≤ t + running_timeout
        → by_status R in_progress now (record (new_record R t i) { id = id }) i.request_hash s
          ≡ (err request_in_process, s)
    unfolding by_status new_record stale
    running t now i id s early = ground arith

    -- The repository's `Complete` has been called, under a status in the range.
    row_completed :
        (id : ℕ) (status : ℤ) (body : Text) (at : Time) (s : Store)
        → id ≢ 0
        → pos 100 ≤ℤ status
        → status ≤ℤ pos 599
        → (complete R id status body false at s ≡ R.complete id completed status body at s)
          × (complete R id status body true at s ≡ R.complete id completed_sensitive status [] at s)
    unfolding complete
    row_completed id status body at s n lo hi = ground arith

    answer :
        (now at : Time) (st : Status) (status : ℤ) (body : Text) (r : Record) (hash : Text)
        (s : Store)
        → (by_status R completed now (completed_row st status body at r) hash s
            ≡ (ok (replay (completed_row st status body at r) status body), s))
          × (by_status R completed_sensitive now (completed_row st status body at r) hash s
              ≡ (err sensitive_response, s))
    unfolding by_status completed_row
    answer now at st status body r hash s = (refl, refl)

    hash_kept :
        (st : Status) (status : ℤ) (body : Text) (at : Time) (r : Record)
        → ((completed_row st status body at r).request_hash ≡ r.request_hash)
          × ((completed_row st status body at r).status ≡ st)
    unfolding completed_row
    hash_kept st status body at r = (refl, refl)

    -- What a begin is told once the record of its scope has been completed.
    after_row :
        (now at : Time) (raw : BeginInput) (st : Status) (status : ℤ) (body : Text) (r : Record)
        (s : Store)
        → valid_input (normalize_input u raw) ≡ true
        → get (normalize_input u raw).scope s ≡ ok (completed_row st status body at r)
        → r.request_hash ≡ (normalize_input u raw).request_hash
        → begin R u now raw s
          ≡ by_status R st now
              (completed_row st status body at r)
              (normalize_input u raw).request_hash
              s
    after_row now at raw st status body r s v found same =
        let row = completed_row st status body at r in
        let hash = (normalize_input u raw).request_hash in
        known now raw row s v found
        ∙ same_hash now row hash s ((hash_kept st status body at r).0 ∙ same)
        ∙ ap (λ x. by_status R x now row hash s) (hash_kept st status body at r).1

    -- While a request runs, the same request is told so until the running timeout has passed since
    -- it began, and nothing is written.
    concurrent_refused :
        (t now : Time) (raw : BeginInput) (r : Record) (s s' : Store)
        → valid_input (normalize_input u raw) ≡ true
        → get (normalize_input u raw).scope s ≡ err not_found
        → create (new_record R t (normalize_input u raw)) s ≡ (ok r, s')
        → now ≤ t + running_timeout
        → (begin R u t raw s ≡ (ok (started r), s'))
          × (begin R u now raw s' ≡ (err request_in_process, s'))
    unfolding new_record
    concurrent_refused t now raw r s s' v absent made early =
        let i = normalize_input u raw in
        let (found, e, _) = created t i r s s' made in
        (
          start t raw r s s' v absent made,
          known now raw r s' v found
              ∙ same_hash now r i.request_hash s'
                  (ap (λ (x : Record). x.request_hash) e ∙ hash_of t i r.id)
              ∙ ap (λ (x : Record). by_status R x.status now x i.request_hash s') e
              ∙ running t now i r.id s' early,
        )

    -- After `Complete`, the same request is answered from the record, at any later time and on any
    -- store that still holds the record as it was written: with the status and the body of the
    -- first response, and without a new start. The input is valid, its scope was new, and the
    -- response has a status from 100 to 599.
    pub replay_after_complete :
        (t at now : Time) (raw : BeginInput) (r : Record) (status : ℤ) (body : Text)
        (s s1 s2 s3 : Store)
        → valid_input (normalize_input u raw) ≡ true
        → get (normalize_input u raw).scope s ≡ err not_found
        → create (new_record R t (normalize_input u raw)) s ≡ (ok r, s1)
        → pos 100 ≤ℤ status
        → status ≤ℤ pos 599
        → complete R r.id status body false at s1 ≡ (none, s2)
        → get (normalize_input u raw).scope s3 ≡ get (normalize_input u raw).scope s2
        → begin R u now raw s3
          ≡ (ok (replay (completed_row completed status body at r) status body), s3)
    replay_after_complete t at now raw r status body s s1 s2 s3 v absent made lo hi done held =
        let i = normalize_input u raw in
        let (found, e, n) = created t i r s s1 made in
        let written = (row_completed r.id status body at s1 n lo hi).0 in
        after_row now at raw completed status body r s3 v
          (held
            ∙ laws.get-complete i.scope r completed status body at s1 s2 found (sym written ∙ done))
          (ap (λ (x : Record). x.request_hash) e ∙ hash_of t i r.id)
        ∙ (answer now at completed status body r i.request_hash s3).0

    -- A sensitive response is never replayed: after `Complete` the record of the scope is the one
    -- that the first request created, marked sensitive, with the status, an empty body and the time
    -- of the write, and the same request is refused on any store that still holds that record, at
    -- any time. The input is valid, its scope was new, so that its record is a freshly created one,
    -- both writes succeed, and the response has a status from 100 to 599.
    pub sensitive_refused :
        (t at now : Time) (raw : BeginInput) (r : Record) (status : ℤ) (body : Text)
        (s s1 s2 s3 : Store)
        → valid_input (normalize_input u raw) ≡ true
        → get (normalize_input u raw).scope s ≡ err not_found
        → create (new_record R t (normalize_input u raw)) s ≡ (ok r, s1)
        → pos 100 ≤ℤ status
        → status ≤ℤ pos 599
        → complete R r.id status body true at s1 ≡ (none, s2)
        → get (normalize_input u raw).scope s3 ≡ get (normalize_input u raw).scope s2
        → (get (normalize_input u raw).scope s2
            ≡ ok (completed_row completed_sensitive status [] at r))
          × (begin R u now raw s3 ≡ (err sensitive_response, s3))
    sensitive_refused t at now raw r status body s s1 s2 s3 v absent made lo hi done held =
        let i = normalize_input u raw in
        let (found, e, n) = created t i r s s1 made in
        let written = (row_completed r.id status body at s1 n lo hi).1 in
        let row =
          laws.get-complete i.scope r completed_sensitive status [] at s1 s2 found
            (sym written ∙ done) in
        (
          row,
          after_row now at raw completed_sensitive status [] r s3 v (held ∙ row)
                (ap (λ (x : Record). x.request_hash) e ∙ hash_of t i r.id)
              ∙ (answer now at completed_sensitive status [] r i.request_hash s3).1,
        )
