-- ===== src/Idempotency/StoredTests.antt =====
-- A run of the cleaning job, and two scopes that are one.
use synapse_go.Base.{
  ℕ, ◌+◌, min, ◌≡◌, refl, false, none, some, [], ◌∷◌, length, pos, nat_eq, list_beq, text_eq, codes,
  rune_len, byte_len, is_space, trim_left, trim_right, trim, has_prefix, all_runes, upper_rune,
  ascii_cases,
}
use synapse_go.Job.Payload.{int_value, payload_int}
use synapse_go.Idempotency.Rows.{completed, Record}
use synapse_go.Idempotency.Table.{scope_beq, find}
use synapse_go.Idempotency.Expiry.{
  delete_limit, delete_first, delete_expired, gc_job, expired_rows, IsLimit, IsKept, gc_job_lem,
}
use synapse_go.Idempotency.Keys.{
  RequestScope, is_control, is_plain, normalize_key, normalize_method, escape, normalize_path,
  normalize_rest, with_key, normalize_scope, storage_key,
}
use synapse_go.Idempotency.Framing.{storage_key_apart}

abbrev kept : Record
kept = record {
  id = 2;
  scope = record {
    tenant_id = 1;
    principal_id = 1;
    key = codes "k2";
    method = codes "POST";
    path = codes "/orders";
  };
  request_hash = [];
  status = completed;
  response_status = some (pos 201);
  response_body = some [];
  created_at = 5;
  updated_at = 5;
  expires_at = 90;
  running_expires_at = none;
}

abbrev gone : Record
gone = record kept { id = 1; scope = record kept.scope { key = codes "k1" }; expires_at = 30 }

program : Unit {0}
unfolding find scope_beq list_beq gc_job delete_expired delete_limit delete_first expired_rows
    payload_int int_value
program = tt

gc_job_lem_example :
    let t' = (gc_job (λ n. n) false 40 none (gone ∷ kept ∷ [])).1 in
    (limit : ℕ) × IsLimit (pos 1000) limit
    × (2 ≡ min limit 1 + length t')
    × (1 ≡ min limit 1 + expired_rows 40 t')
    × IsKept 40 kept.scope (gone ∷ kept ∷ []) t'
unfolding program
gc_job_lem_example = gc_job_lem (λ n. n) 40 none kept.scope (gone ∷ kept ∷ [])

abbrev asked : RequestScope
asked = record {
  tenant_id = codes " t1";
  principal_id = codes "7";
  method = codes "post";
  path = codes "orders";
  key = codes "k1 ";
}

abbrev scope : RequestScope
scope = record {
  tenant_id = codes "t1";
  principal_id = codes "7";
  method = codes "POST";
  path = codes "/orders";
  key = codes "k1";
}

-- The digest of the example is the text itself, which never collides.
storage_key_apart_example : scope ≡ scope
unfolding storage_key normalize_scope with_key normalize_rest normalize_key normalize_method
    normalize_path escape all_runes is_plain is_control upper_rune byte_len rune_len has_prefix trim
    trim_left trim_right is_space
storage_key_apart_example =
    storage_key_apart ascii_cases (λ p. none) (λ t. t) asked scope scope scope refl refl (λ e. e)
      refl
