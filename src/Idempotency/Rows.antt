-- ===== src/Idempotency/Rows.antt =====
-- idempotency/model.go and the `repository` interface of service.go.
use synapse_go.Base.{ℕ, ◌≡◌, ◌≢◌, Option, none, some, [], ◌∷◌, ℤ, nat_eq, Text, text_eq, Time}

pub data Status : Type 0 where
  in_progress completed completed_sensitive : Status
  unknown : Text → Status

pub data Err : Type 0 where
  invalid_input not_found duplicate request_mismatch request_in_process : Err
  sensitive_response internal : Err
  other : Text → Err

pub data Result (A : Type 0) : Type 0 where
  ok : A → Result A
  err : Err → Result A

-- The columns of the unique index `uk_idempotency_scope`.
pub record Scope : Type 0 where
  pub tenant_id : ℕ
  pub principal_id : ℕ
  pub key : Text
  pub method : Text
  pub path : Text

pub record Record : Type 0 where
  pub id : ℕ
  pub scope : Scope
  pub request_hash : Text
  pub status : Status
  pub response_status : Option ℤ
  pub response_body : Option Text
  pub created_at : Time
  pub updated_at : Time
  pub expires_at : Time
  pub running_expires_at : Option Time

-- The calls of the repository that `Begin` and `Complete` make. `create` gives the record back with
-- the id that the database chose; the time of `complete` is that of its statement.
pub record Repository : Type 1 where
  pub Store : Type 0
  pub create : Record → Store → Result Record × Store
  pub get : Scope → Store → Result Record
  pub complete : ℕ → Status → ℤ → Text → Time → Store → Option Err × Store
  pub restart : ℕ → Text → Time → Time → Store → Option Err × Store

-- An empty status is the text of `unknown []`.
abbrev pub or_completed : Status → Status
or_completed in_progress = in_progress
or_completed completed = completed
or_completed completed_sensitive = completed_sensitive
or_completed (unknown []) = completed
or_completed (unknown (c ∷ t)) = unknown (c ∷ t)

-- What `Complete` writes, and what `Restart` writes to a record in progress. GORM's `Updates` adds
-- the time of the statement as `updated_at` where the map does not name that column.
unfoldable pub completed_row : Status → ℤ → Text → Time → Record → Record
completed_row status code body at r = record r {
  status = status;
  response_status = some code;
  response_body = some body;
  updated_at = at;
  running_expires_at = none;
}

unfoldable pub restarted_row : Text → Time → Time → Record → Record
restarted_row hash running updated r = record r {
  request_hash = hash;
  running_expires_at = some running;
  updated_at = updated;
}

-- What a row-addressed SQL store gives when its calls succeed: a created row is found by its scope
-- under an id that is not 0 and that no row found before has, and an update by id changes the row of that id.
pub record Laws (R : Repository) : Type 1 where
  pub create_id :
      (r r' : Record) (s s' : R.Store)
      → R.create r s ≡ (ok r', s')
      → (r' ≡ record r { id = r'.id }) × (r'.id ≢ 0)
  pub create_fresh :
      (k : Scope) (r₀ r r' : Record) (s s' : R.Store)
      → R.create r s ≡ (ok r', s')
      → R.get k s ≡ ok r₀
      → r₀.id ≢ r'.id
  pub get-create :
      (r r' : Record) (s s' : R.Store) → R.create r s ≡ (ok r', s') → R.get r.scope s' ≡ ok r'
  pub get-complete :
      (k : Scope) (r : Record) (status : Status) (code : ℤ) (body : Text) (at : Time)
      (s s' : R.Store)
      → R.get k s ≡ ok r
      → R.complete r.id status code body at s ≡ (none, s')
      → R.get k s' ≡ ok (completed_row (or_completed status) code body at r)
