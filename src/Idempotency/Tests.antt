-- ===== src/Idempotency/Tests.antt =====
-- One client that creates an order, and repeats the request.
use synapse_go.Base.{
  ◌+◌, ◌≡◌, refl, false, none, some, [], ◌∷◌, arith, pos, nat_eq, list_beq, Text, text_eq, codes,
  rune_len, byte_len, is_space, trim, has_prefix, trim_prefix, all_runes, upper_rune, ascii_cases,
  Time,
}
use synapse_go.Idempotency.Rows.{
  in_progress, completed, completed_sensitive, invalid_input, request_in_process,
  sensitive_response, ok, err, Record, completed_row, restarted_row,
}
use synapse_go.Idempotency.{
  BeginInput, started, running_timeout, default_ttl, valid_request_hash, normalize_input,
  valid_input, stale, decision_for_existing, new_record, begin, complete,
}
use synapse_go.Idempotency.Table.{
  scope_beq, find, is_live, update_row, max_id, insert_row, create_row, complete_row, restart_row,
  table, table-Laws,
}
use synapse_go.Idempotency.Replay.{sensitive_refused}
use synapse_go.Idempotency.Race.{double_start}
use synapse_go.Idempotency.Middleware.{
  Response, Request, replayed, ran, is_write_method, read_bounded_body, idempotency_scope, input_of,
  serve, retry_replayed,
}

program : Unit {0}
unfolding begin complete normalize_input valid_input valid_request_hash stale decision_for_existing
    new_record upper_rune trim is_space byte_len rune_len all_runes trim_prefix has_prefix find
    scope_beq update_row insert_row create_row complete_row restart_row max_id is_live completed_row
    restarted_row list_beq input_of serve is_write_method read_bounded_body idempotency_scope
program = tt

abbrev digest : Text
digest = codes "sha256:00112233445566778899aabbccddeeff00112233445566778899aabbccddeeff"

abbrev order : BeginInput
order = record {
  scope = record {
    tenant_id = 7;
    principal_id = 9;
    key = codes " k1";
    method = codes "post";
    path = codes "/orders";
  };
  request_hash = digest;
}

abbrev row : Record
row = record {
  id = 1;
  scope = record {
    tenant_id = 7;
    principal_id = 9;
    key = codes "k1";
    method = codes "POST";
    path = codes "/orders";
  };
  request_hash = digest;
  status = in_progress;
  response_status = none;
  response_body = none;
  created_at = 5;
  updated_at = 5;
  expires_at = 5 + default_ttl;
  running_expires_at = some (5 + running_timeout);
}

abbrev body : Text
body = codes "{}"

begins : begin table ascii_cases 5 order [] ≡ (ok (started row), row ∷ [])
unfolding program
begins = refl

bad_key :
    (begin table ascii_cases 5 (record order { request_hash = codes "abc" }) []).0
    ≡ err invalid_input
unfolding program
bad_key = refl

sensitive_refused_example :
    (find row.scope (completed_row completed_sensitive (pos 201) [] 6 row ∷ [])
      ≡ ok (completed_row completed_sensitive (pos 201) [] 6 row))
    × (begin table ascii_cases 77 order (completed_row completed_sensitive (pos 201) [] 6 row ∷ [])
        ≡ (err sensitive_response, completed_row completed_sensitive (pos 201) [] 6 row ∷ []))
unfolding program
sensitive_refused_example =
    sensitive_refused table ascii_cases table-Laws 5 6 77 order row (pos 201) body [] (row ∷ [])
      (completed_row completed_sensitive (pos 201) [] 6 row ∷ [])
      (completed_row completed_sensitive (pos 201) [] 6 row ∷ []) refl refl refl (omega arith)
      (omega arith) refl refl

abbrev altered : BeginInput
altered = record order {
  request_hash = codes "ff112233445566778899aabbccddeeff00112233445566778899aabbccddeeff";
}

abbrev at_70s : Time
at_70s = 70000000000

abbrev at_71s : Time
at_71s = 71000000000

abbrev row_70s : Record
row_70s = record row { updated_at = at_70s; running_expires_at = some (at_70s + running_timeout) }

abbrev row_71s : Record
row_71s = record row { updated_at = at_71s; running_expires_at = some (at_71s + running_timeout) }

double_start_example :
    (decision_for_existing table at_70s row digest (row ∷ [])
      ≡ (ok (started row_70s), row_70s ∷ []))
    × (find row.scope (row_70s ∷ []) ≡ ok row_70s)
    × (decision_for_existing table at_71s row_70s digest (row_70s ∷ [])
        ≡ (err request_in_process, row_70s ∷ []))
    × (decision_for_existing table at_71s row digest (row_70s ∷ [])
        ≡ (ok (started row_71s), row_71s ∷ []))
unfolding program
double_start_example =
    double_start at_70s at_71s row.scope row (row ∷ []) refl refl refl (omega arith) (omega arith)

abbrev request : Request
request = record {
  key = codes " k1";
  method = codes "POST";
  path = codes "/orders";
  body = some (123 ∷ 125 ∷ []);
  tenant_claims = some (7, 9);
  platform_principal = none;
  path_tenant = 0;
  query_tenant = 0;
}

abbrev reply : Request → Response
reply q = record { status = pos 201; body = body; sensitive = false }

abbrev served : Record
served = completed_row completed (pos 201) body 6 row

retry_replayed_example :
    (serve table ascii_cases (λ m p b. digest) (λ b. none) reply 5 6 request []
      ≡ (ran (reply request), served ∷ []))
    × (serve table ascii_cases (λ m p b. digest) (λ b. none) reply 88 89 request (served ∷ [])
        ≡ (replayed (pos 201) body, served ∷ []))
unfolding program
retry_replayed_example =
    retry_replayed table ascii_cases (λ m p b. digest) (λ b. none) reply table-Laws 5 6 88 89
      request (123 ∷ 125 ∷ []) (7, 9) row [] (row ∷ []) (served ∷ []) (served ∷ []) refl refl refl
      (omega arith) refl refl refl refl (omega arith) (omega arith) refl refl refl
