-- ===== src/Idempotency.antt =====
-- idempotency/service.go and model.go: the life of an idempotency record. The repository is the
-- interface that the service declares; `Laws` is what its SQL implementation documents.
pub mod Rows
pub mod Replay
pub mod Race
pub mod Middleware
pub mod Table
pub mod Expiry
pub mod Keys
pub mod Framing
mod StoredTests
mod Tests
use synapse_go.Base.{
  ℕ, zero, suc, ◌+◌, ◌-◌, ◌*◌, ◌/◌, ◌%◌, ◌^◌, ◌≤◌, ◌<◌, min, ◌≡◌, refl, sym, ap, ap₂, subst, ◌∙◌,
  ◌≢◌, ◌↔◌, ◌⊎◌, inl, inr, Bool, true, false, not, ◌&&◌, ◌||◌, Option, none, some, List, [], ◌∷◌,
  ◌++◌, map, arith, ◌==◌, ==_iff, ltb, leb, if◌then◌else◌, ltb→lt, ltb_false→le, leb→le, Bool-cases,
  Option-cases, length, take, drop, length-append, length-take, length-drop, All, Any, here, there,
  ℤ, pos, negsuc, pos_part, neg_part, sub_ℕ, ◌+ℤ◌, ◌-ℤ◌, ◌≤ℤ◌, ◌<ℤ◌, ltb_ℤ, leb_ℤ, nonpos, +ℤ_parts,
  -ℤ_parts, eq_of_parts, int_laws, Eq, nat_eq, beq_refl, beq_false, ne_of_beq, list_beq,
  list_beq_iff, lookup, insert, delete, lookup-insert, lookup-insert_self, lookup-insert_ne,
  lookup-delete, Text, text_eq, codes, is_empty, rune_len, byte_len, is_space, trim_left,
  trim_right, trim, trim_space, has_prefix, first_ok, last_ok, last_ok-trim_right, trim_id,
  first_ok-trim, last_ok-trim, trim_idem, trim_prefix, all_runes, Cases, upper_rune, lower_rune,
  to_upper, to_lower, ascii_cases, Time, Duration, is_zero, add_time, sub_time, after, seconds,
}
use synapse_go.Idempotency.Rows.{
  Status, in_progress, completed, completed_sensitive, unknown, Err, invalid_input, not_found,
  duplicate, request_mismatch, request_in_process, sensitive_response, internal, other, Result, ok,
  err, Scope, Record, Repository, completed_row, restarted_row, Laws,
}

pub record BeginInput : Type 0 where
  pub scope : Scope
  pub request_hash : Text

pub data BeginResult : Type 0 where
  started : Record → BeginResult
  replay : Record → ℤ → Text → BeginResult

-- 60 s and 24 h in nanoseconds.
abbrev pub running_timeout : ℕ
running_timeout = 60000000000

abbrev pub default_ttl : ℕ
default_ttl = 86400000000000

abbrev hash_prefix : Text
hash_prefix = codes "sha256:"

is_hex : ℕ → Bool
is_hex r = (leb b'0' r && leb r b'9') || (leb b'a' r && leb r b'f') || (leb b'A' r && leb r b'F')

pub valid_request_hash : Text → Bool
unfolding is_hex
valid_request_hash raw =
    let hash = trim_prefix raw hash_prefix in byte_len hash == 64 && all_runes is_hex hash

-- The trimming at the head of `Begin`.
pub normalize_input : Cases → BeginInput → BeginInput
normalize_input u i = record {
  scope = record i.scope {
    key = trim_space i.scope.key;
    method = to_upper u (trim_space i.scope.method);
    path = trim_space i.scope.path;
  };
  request_hash = trim_space i.request_hash;
}

pub valid_input : BeginInput → Bool
valid_input i =
    not (
      i.scope.tenant_id == 0
      || i.scope.principal_id == 0
      || is_empty i.scope.key
      || is_empty i.scope.method
      || is_empty i.scope.path
      || is_empty i.request_hash)
    && not (
        ltb 128 (byte_len i.scope.key)
        || ltb 16 (byte_len i.scope.method)
        || ltb 255 (byte_len i.scope.path)
        || not (valid_request_hash i.request_hash))

or_200 : Option ℤ → ℤ
or_200 none = pos 200
or_200 (some n) = n

or_blank : Option Text → Text
or_blank none = []
or_blank (some t) = t

-- `rec.RunningExpiresAt != nil && s.now().After(*rec.RunningExpiresAt)`
pub stale : Time → Option Time → Bool
stale now none = false
stale now (some t) = after now t

module _ (R : Repository) where
  open R use {Store, create, get, complete as repo_complete, restart}

  -- The record that a successful restart returns to the caller, or the repository's error.
  restarted : Time → Record → Option Err × Store → Result BeginResult × Store
  restarted now rec (some e, s) = (err e, s)
  restarted now rec (none, s) = (
    ok (
        started
          (record rec { updated_at = now; running_expires_at = some (now + running_timeout) })),
    s,
  )

  by_status : Status → Time → Record → Text → Store → Result BeginResult × Store
  unfolding or_200 or_blank restarted
  by_status completed now rec hash s =
      (ok (replay rec (or_200 rec.response_status) (or_blank rec.response_body)), s)
  by_status completed_sensitive now rec hash s = (err sensitive_response, s)
  by_status in_progress now rec hash s =
      if stale now rec.running_expires_at
      then restarted now rec (restart rec.id hash (now + running_timeout) now s)
      else (err request_in_process, s)
  by_status (unknown _) now rec hash s = (err request_in_process, s)

  -- `decisionForExisting`, on a record that was read before.
  pub decision_for_existing : Time → Record → Text → Store → Result BeginResult × Store
  unfolding by_status
  decision_for_existing now rec hash s =
      if not (list_beq rec.request_hash hash)
      then (err request_mismatch, s)
      else by_status rec.status now rec hash s

  decision_for_get : Time → Result Record → Text → Store → Result BeginResult × Store
  decision_for_get now (ok rec) hash s = decision_for_existing now rec hash s
  decision_for_get now (err e) hash s = (err e, s)

  pub new_record : Time → BeginInput → Record
  new_record now i = record {
    id = 0;
    scope = i.scope;
    request_hash = i.request_hash;
    status = in_progress;
    response_status = none;
    response_body = none;
    created_at = now;
    updated_at = now;
    expires_at = now + default_ttl;
    running_expires_at = some (now + running_timeout);
  }

  after_create : Time → BeginInput → Result Record × Store → Result BeginResult × Store
  unfolding decision_for_get
  after_create now i (ok rec, s) = (ok (started rec), s)
  after_create now i (err duplicate, s) = decision_for_get now (get i.scope s) i.request_hash s
  after_create now i (err e, s) = (err e, s)

  after_get : Time → BeginInput → Result Record → Store → Result BeginResult × Store
  unfolding after_create new_record
  after_get now i (ok rec) s = decision_for_existing now rec i.request_hash s
  after_get now i (err not_found) s = after_create now i (create (new_record now i) s)
  after_get now i (err e) s = (err e, s)

  pub begin : Cases → Time → BeginInput → Store → Result BeginResult × Store
  unfolding after_get
  begin u now raw s =
      let i = normalize_input u raw in
      if valid_input i then after_get now i (get i.scope s) s else (err invalid_input, s)

  -- `Complete`: a sensitive response is marked, and its body is not kept. `at` is the time at which
  -- the database writes.
  pub complete : ℕ → ℤ → Text → Bool → Time → Store → Option Err × Store
  complete id status body sensitive at s =
      if id == 0 || ltb_ℤ status (pos 100) || ltb_ℤ (pos 599) status
      then (some invalid_input, s)
      else if sensitive
      then repo_complete id completed_sensitive status [] at s
      else repo_complete id completed status body at s
