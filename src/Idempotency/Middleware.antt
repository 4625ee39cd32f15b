-- ===== src/Idempotency/Middleware.antt =====
-- idempotency/middleware.go: the handler around a write request. The handler behind it is a
-- function of the request, and what `encoding/json` finds in a body is an argument.
use synapse_go.Base.{
  ℕ, zero, suc, ◌≤◌, ◌≡◌, ap, ◌∙◌, Bool, true, false, not, ◌||◌, Option, none, some, List, arith,
  ltb, if◌then◌else◌, length, ℤ, pos, ◌≤ℤ◌, nat_eq, list_beq, Text, text_eq, codes, is_empty, Cases,
  Time,
}
use synapse_go.Idempotency.Rows.{
  Err, invalid_input, not_found, request_mismatch, request_in_process, sensitive_response, Result,
  ok, err, Record, Repository, Laws,
}
use synapse_go.Idempotency.{
  BeginInput, BeginResult, started, replay, normalize_input, valid_input, new_record, begin,
  complete,
}
use synapse_go.Idempotency.Replay.{start, replay_after_complete}

pub record Response : Type 0 where
  pub status : ℤ
  pub body : Text
  pub sensitive : Bool

pub record Request : Type 0 where
  pub key : Text
  pub method : Text
  pub path : Text
  pub body : Option (List ℕ)  -- `none` is a body that cannot be read
  pub tenant_claims : Option (ℕ × ℕ)  -- tenant and principal
  pub platform_principal : Option ℕ
  pub path_tenant : ℕ  -- the `tenant_id` parameter as a number, 0 if it is none
  pub query_tenant : ℕ

pub data Answer : Type 0 where
  passed : Response → Answer
  aborted : ℕ → Answer
  replayed : ℤ → Text → Answer
  ran : Response → Answer

abbrev pub max_request_body_bytes : ℕ
max_request_body_bytes = 1048576

unfoldable pub is_write_method : Text → Bool
is_write_method m =
    list_beq m (codes "POST")
    || list_beq m (codes "PUT")
    || list_beq m (codes "PATCH")
    || list_beq m (codes "DELETE")

pub data BodyRead : Type 0 where
  bytes : List ℕ → BodyRead
  too_large unreadable : BodyRead

unfoldable pub read_bounded_body : Option (List ℕ) → BodyRead
read_bounded_body none = unreadable
read_bounded_body (some b) = if ltb max_request_body_bytes (length b) then too_large else bytes b

-- The error's status in `writeMiddlewareError`.
status_of_error : Err → ℕ
status_of_error invalid_input = 400
status_of_error request_mismatch = 409
status_of_error request_in_process = 409
status_of_error sensitive_response = 409
status_of_error _ = 500

first_nonzero : ℕ → ℕ → ℕ
first_nonzero zero n = n
first_nonzero (suc m) n = suc m

or_zero : Option ℕ → ℕ
or_zero none = 0
or_zero (some n) = n

platform_scope : Option ℕ → ℕ → Option (ℕ × ℕ)
platform_scope none tid = none
platform_scope (some zero) tid = none
platform_scope (some (suc p)) zero = none
platform_scope (some (suc p)) (suc t) = some (suc t, suc p)

read_small : (b : List ℕ) → length b ≤ 1048576 → read_bounded_body (some b) ≡ bytes b
unfolding read_bounded_body
read_small b h = ground arith

module _ (body_tenant : List ℕ → Option ℕ) where
  unfoldable pub idempotency_scope : Request → List ℕ → Option (ℕ × ℕ)
  unfolding first_nonzero or_zero platform_scope
  idempotency_scope q body = elim (q.tenant_claims) [
    | some claims ↦ some claims
    | none ↦
        platform_scope q.platform_principal
          (first_nonzero q.path_tenant (first_nonzero q.query_tenant (or_zero (body_tenant body))))
  ]

module _ (R : Repository) (u : Cases) (request_hash : Text → Text → List ℕ → Text)
    (body_tenant : List ℕ → Option ℕ) (handler : Request → Response) where
  open R use {Store}

  unfoldable pub input_of : Request → List ℕ → ℕ × ℕ → BeginInput
  input_of q body (tenant, principal) = record {
    scope = record {
      tenant_id = tenant;
      principal_id = principal;
      key = q.key;
      method = q.method;
      path = q.path;
    };
    request_hash = request_hash q.method q.path body;
  }

  -- The response is recorded, at the time `at` of the database's write; an error of `Complete` does
  -- not reach the client.
  run_recorded : Time → Record → Request → Store → Answer × Store
  run_recorded at rec q s =
      let r = handler q in (ran r, (complete R rec.id r.status r.body r.sensitive at s).1)

  on_begin : Time → Request → Result BeginResult × Store → Answer × Store
  unfolding run_recorded status_of_error
  on_begin at q (err e, s) = (aborted (status_of_error e), s)
  on_begin at q (ok (replay rec status body), s) = (replayed status body, s)
  on_begin at q (ok (started rec), s) = run_recorded at rec q s

  on_scope : Option (ℕ × ℕ) → Time → Time → Request → List ℕ → Store → Answer × Store
  unfolding on_begin
  on_scope none now at q body s = (passed (handler q), s)
  on_scope (some claims) now at q body s = on_begin at q (begin R u now (input_of q body claims) s)

  on_body : BodyRead → Time → Time → Request → Store → Answer × Store
  unfolding on_scope
  on_body too_large now at q s = (aborted 413, s)
  on_body unreadable now at q s = (aborted 400, s)
  on_body (bytes body) now at q s = on_scope (idempotency_scope body_tenant q body) now at q body s

  -- `now` is the time of the request.
  unfoldable pub serve : Time → Time → Request → Store → Answer × Store
  unfolding on_body
  serve now at q s =
      if is_empty q.key || not (is_write_method q.method)
      then (passed (handler q), s)
      else on_body (read_bounded_body q.body) now at q s

  guarded :
      (now at : Time) (q : Request) (body : List ℕ) (claims : ℕ × ℕ) (s : Store)
      → is_empty q.key ≡ false
      → is_write_method q.method ≡ true
      → q.body ≡ some body
      → length body ≤ 1048576
      → q.tenant_claims ≡ some claims
      → serve now at q s ≡ on_begin at q (begin R u now (input_of q body claims) s)
  unfolding serve idempotency_scope
  guarded now at q body claims s k w b small c = rw (k, w, b, read_small body small, c)

  recorded :
      (at : Time) (q : Request) (r : Record) (s1 s2 : Store)
      → (handler q).sensitive ≡ false
      → complete R r.id (handler q).status (handler q).body false at s1 ≡ (none, s2)
      → on_begin at q (ok (started r), s1) ≡ (ran (handler q), s2)
  unfolding on_begin
  recorded at q r s1 s2 public done =
      ap (λ x. (ran (handler q), (complete R r.id (handler q).status (handler q).body x at s1).1))
        public
      ∙ ap (λ (x : Option Err × Store). (ran (handler q), x.1)) done

  -- A client that repeats a write request is served once: the first request runs the handler, and
  -- the same request, at any later time at which the store still holds the record as the first
  -- request left it, is answered with the recorded status and body, does not run the handler and
  -- leaves the store alone. The record is held until it expires, 24 hours after the first request,
  -- and the clean-up job deletes it: after that nothing is said. The key is new, the caller has
  -- tenant claims, the body is within the bound, the normalized input is valid (tenant, principal,
  -- key, method, path and request hash), the response is not sensitive and has an HTTP status code
  -- from 100 to 599, and the two writes of the repository succeed.
  pub retry_replayed :
      (laws : Laws R) (t at now at' : Time) (q : Request) (body : List ℕ) (claims : ℕ × ℕ)
      (r : Record) (s s1 s2 s3 : Store)
      → is_empty q.key ≡ false
      → is_write_method q.method ≡ true
      → q.body ≡ some body
      → length body ≤ 1048576
      → q.tenant_claims ≡ some claims
      → valid_input (normalize_input u (input_of q body claims)) ≡ true
      → R.get (normalize_input u (input_of q body claims)).scope s ≡ err not_found
      → R.create (new_record R t (normalize_input u (input_of q body claims))) s ≡ (ok r, s1)
      → pos 100 ≤ℤ (handler q).status
      → (handler q).status ≤ℤ pos 599
      → (handler q).sensitive ≡ false
      → complete R r.id (handler q).status (handler q).body false at s1 ≡ (none, s2)
      → R.get (normalize_input u (input_of q body claims)).scope s3
        ≡ R.get (normalize_input u (input_of q body claims)).scope s2
      → (serve t at q s ≡ (ran (handler q), s2))
        × (serve now at' q s3 ≡ (replayed (handler q).status (handler q).body, s3))
  unfolding on_begin
  retry_replayed laws t at now at' q body claims r s s1 s2 s3 k w b small c v absent made lo hi
        public done held =
      (
        guarded t at q body claims s k w b small c
            ∙ ap (on_begin at q) (start R u t (input_of q body claims) r s s1 v absent made)
            ∙ recorded at q r s1 s2 public done,
        guarded now at' q body claims s3 k w b small c
            ∙ ap (on_begin at' q) (
                replay_after_complete R u laws t at now (input_of q body claims) r
                  (handler q).status (handler q).body s s1 s2 s3 v absent made lo hi done held),
      )
