-- ===== src/Idempotency/Table.antt =====
-- idempotency/repo.go: its statements on the table of the records. A call succeeds; the id of a new
-- row is above those of the others.
use synapse_go.Base.{
  ℕ, suc, ◌≤◌, ◌≡◌, refl, sym, ap, subst, ◌∙◌, ◌≢◌, inl, inr, Bool, true, false, ◌&&◌, Option, none,
  List, [], ◌∷◌, arith, ◌==◌, ==_iff, ltb, if◌then◌else◌, Bool-cases, ℤ, nat_eq, list_beq,
  list_beq_iff, Text, text_eq, Time,
}
use synapse_go.Idempotency.Rows.{
  Status, in_progress, Err, not_found, duplicate, Result, ok, err, Scope, Record, Repository,
  or_completed, completed_row, restarted_row, Laws,
}

unfoldable pub scope_beq : Scope → Scope → Bool
scope_beq a b =
    a.tenant_id == b.tenant_id
    && a.principal_id == b.principal_id
    && list_beq a.key b.key
    && list_beq a.method b.method
    && list_beq a.path b.path

scope_beq_refl : (a : Scope) → scope_beq a a ≡ true
unfolding scope_beq
scope_beq_refl a =
    ground
      (arith, list_beq_iff a.key a.key, list_beq_iff a.method a.method, list_beq_iff a.path a.path)

unfoldable pub find : Scope → List Record → Result Record
unfolding scope_beq
find k [] = err not_found
find k (r ∷ t) = if scope_beq r.scope k then ok r else find k t

unfoldable pub is_live : Status → Bool
is_live in_progress = true
is_live _ = false

unfoldable pub update_row : (Record → Record) → ℕ → List Record → List Record
update_row f id [] = []
update_row f id (r ∷ t) = (if r.id == id then f r else r) ∷ update_row f id t

unfoldable pub max_id : List Record → ℕ
max_id [] = 0
max_id (r ∷ t) = let n = max_id t in if ltb n r.id then r.id else n

unfoldable pub insert_row : Result Record → Record → List Record → Result Record × List Record
insert_row (ok _) r t = (err duplicate, t)
insert_row (err _) r t = let r' = record r { id = suc (max_id t) } in (ok r', r' ∷ t)

unfoldable pub create_row : Record → List Record → Result Record × List Record
create_row r t = insert_row (find r.scope t) r t

unfoldable pub complete_row : ℕ → Status → ℤ → Text → Time → List Record → Option Err × List Record
complete_row id st code body at t =
    (none, update_row (completed_row (or_completed st) code body at) id t)

unfoldable pub restart_row : ℕ → Text → Time → Time → List Record → Option Err × List Record
restart_row id hash running now t =
    (none, update_row (λ r. if is_live r.status then restarted_row hash running now r else r) id t)

abbrev pub table : Repository
table = record {
  Store = List Record;
  create = create_row;
  get = find;
  complete = complete_row;
  restart = restart_row;
}

insert_row-inv :
    (o : Result Record) (r r' : Record) (t t' : List Record)
    → insert_row o r t ≡ (ok r', t')
    → (r' ≡ record r { id = suc (max_id t) }) × (t' ≡ r' ∷ t)
unfolding insert_row
insert_row-inv (ok _) r r' t t' h = absurd (ground arith)
insert_row-inv (err _) r r' t t' h = ground arith

scope-update :
    (f : Record → Record) (k : Scope) (b : Bool) (x : Record)
    → (f x).scope ≡ x.scope
    → scope_beq (if b then f x else x).scope k ≡ scope_beq x.scope k
scope-update f k true x same = ap (λ c. scope_beq c k) same
scope-update f k false x same = refl

update-hit :
    (f : Record → Record) (k : Scope) (r : Record) (t : List Record)
    → ((x : Record) → (f x).scope ≡ x.scope)
    → scope_beq r.scope k ≡ true
    → find k (update_row f r.id (r ∷ t)) ≡ ok (f r)
unfolding find update_row
update-hit f k r t same hit =
    rw (scope-update f k (r.id == r.id) r (same r), hit, (==_iff r.id r.id).1 refl)

pub ok_inj : (x r : Record) → ok x ≡ ok r → x ≡ r
ok_inj x r h = cc h

pub find-update_row :
    (f : Record → Record) (k : Scope) (r : Record) (t : List Record)
    → ((x : Record) → (f x).scope ≡ x.scope)
    → find k t ≡ ok r
    → find k (update_row f r.id t) ≡ ok (f r)
unfolding find update_row
find-update_row f k r [] same h = absurd (ground arith)
find-update_row f k r (x ∷ t) same h = elim (Bool-cases (scope_beq x.scope k)) [
  | inl hit ↦
      subst (λ y. find k (update_row f y.id (x ∷ t)) ≡ ok (f y)) (ok_inj x r (rw hit at h))
        (update-hit f k x t same hit)
  | inr miss ↦
      rw (scope-update f k (x.id == r.id) x (same x), miss)
        (find-update_row f k r t same (rw miss at h))
]

completed_row-scope :
    (st : Status) (code : ℤ) (body : Text) (at : Time) (x : Record)
    → (completed_row st code body at x).scope ≡ x.scope
unfolding completed_row
completed_row-scope st code body at x = refl

snd_path :
    (a : Option Err) (b c : List Record)
    → ◌≡◌ {A = Option Err × List Record} (a, b) (none, c)
    → b ≡ c
snd_path a b c h = ap (λ (x : Option Err × List Record). x.1) h

find-max_id : (k : Scope) (r : Record) (t : List Record) → find k t ≡ ok r → r.id ≤ max_id t
unfolding find max_id
find-max_id k r [] h = absurd (ground arith)
find-max_id k r (x ∷ t) h = elim (Bool-cases (scope_beq x.scope k)) [
  | inl hit ↦
      let same : x ≡ r = ok_inj x r (rw hit at h) in ground (arith, ap (λ (y : Record). y.id) same)
  | inr miss ↦ ground (arith, find-max_id k r t (rw miss at h))
]

id_above :
    (k : Scope) (r₀ r r' : Record) (s : List Record)
    → r' ≡ record r { id = suc (max_id s) }
    → find k s ≡ ok r₀
    → r₀.id ≢ r'.id
id_above k r₀ r r' s e found same =
    let eid : r'.id ≡ suc (max_id s) = ap (λ (x : Record). x.id) e in
    let bound = find-max_id k r₀ s found in absurd (omega arith)

id_kept :
    (r r' : Record) (n : ℕ)
    → r' ≡ record r { id = suc n }
    → (r' ≡ record r { id = r'.id }) × (r'.id ≢ 0)
id_kept r r' n e =
    let eid : r'.id ≡ suc n = ap (λ (x : Record). x.id) e in
    (e ∙ sym (ap (λ x. record r { id = x }) eid), λ z. absurd (omega arith))

found_head : (r r' : Record) (s : List Record) → r'.scope ≡ r.scope → find r.scope (r' ∷ s) ≡ ok r'
unfolding find
found_head r r' s same =
    let hit : scope_beq r'.scope r.scope ≡ true =
      ap (λ c. scope_beq c r.scope) same ∙ scope_beq_refl r.scope in
    rw hit

pub table-Laws : Laws table
unfolding find create_row complete_row
table-Laws = record {
  create_id = λ r r' s s' h.
      let (e, _) = insert_row-inv (find r.scope s) r r' s s' h in id_kept r r' (max_id s) e;
  create_fresh = λ k r₀ r r' s s' h found.
      let (e, _) = insert_row-inv (find r.scope s) r r' s s' h in id_above k r₀ r r' s e found;
  get-create = λ r r' s s' h.
      let (e, p) = insert_row-inv (find r.scope s) r r' s s' h in
      ap (find r.scope) p ∙ found_head r r' s (ap (λ (x : Record). x.scope) e);
  get-complete = λ k r st code body at s s' found h.
      ap (find k) (sym (snd_path none _ s' h))
      ∙ find-update_row (completed_row (or_completed st) code body at) k r s
          (completed_row-scope (or_completed st) code body at) found;
}
