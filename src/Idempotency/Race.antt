-- ===== src/Idempotency/Race.antt =====
-- Two requests that both read a stale record before either restarts it.
use synapse_go.Base.{
  ◌+◌, ◌≤◌, ◌≡◌, refl, ap, ◌∙◌, Bool, true, false, Option, none, some, List, arith, if◌then◌else◌,
  nat_eq, list_beq_iff, Text, text_eq, Time,
}
use synapse_go.Idempotency.Rows.{
  in_progress, request_in_process, ok, err, Scope, Record, Repository, restarted_row,
}
use synapse_go.Idempotency.Table.{find, is_live, restart_row, table, find-update_row}
use synapse_go.Idempotency.{
  started, running_timeout, stale, restarted, by_status, decision_for_existing,
}

module _ (R : Repository) where
  open R use {Store, restart}

  -- A stale record is taken over by the request that restarts it.
  takes_over :
      (t : Time) (rec : Record) (a b : Store)
      → rec.status ≡ in_progress
      → stale t rec.running_expires_at ≡ true
      → restart rec.id rec.request_hash (t + running_timeout) t a ≡ (none, b)
      → decision_for_existing R t rec rec.request_hash a ≡ (
        ok (
            started
              (record rec { updated_at = t; running_expires_at = some (t + running_timeout) })),
        b,
      )
  unfolding decision_for_existing by_status restarted
  takes_over t rec a b running late done =
      ground (arith, list_beq_iff rec.request_hash rec.request_hash)

scope_kept :
    (hash : Text) (running t : Time) (b : Bool) (x : Record)
    → (if b then restarted_row hash running t x else x).scope ≡ x.scope
unfolding restarted_row
scope_kept hash running t true x = refl
scope_kept hash running t false x = refl

restarted_live :
    (k : Scope) (hash : Text) (running t : Time) (rec : Record) (s : List Record)
    → rec.status ≡ in_progress
    → find k s ≡ ok rec
    → find k (restart_row rec.id hash running t s).1 ≡ ok (restarted_row hash running t rec)
unfolding restart_row is_live
restarted_live k hash running t rec s live found =
    let f : Record → Record = λ r. if is_live r.status then restarted_row hash running t r else r in
    find-update_row f k rec s (λ x. scope_kept hash running t (is_live x.status) x) found
    ∙ ap (λ x. ok (if is_live x then restarted_row hash running t rec else rec)) live

refused_after :
    (t1 t2 : Time) (rec : Record) (s : List Record)
    → rec.status ≡ in_progress
    → t2 ≤ t1 + running_timeout
    → decision_for_existing table t2
        (restarted_row rec.request_hash (t1 + running_timeout) t1 rec)
        rec.request_hash
        s
      ≡ (err request_in_process, s)
unfolding decision_for_existing by_status restarted_row stale
refused_after t1 t2 rec s live early =
    ground (arith, list_beq_iff rec.request_hash rec.request_hash)

stale_later : (t1 t2 : Time) (o : Option Time) → stale t1 o ≡ true → t1 ≤ t2 → stale t2 o ≡ true
unfolding stale
stale_later t1 t2 none late order = absurd (ground arith)
stale_later t1 t2 (some e) late order = ground arith

-- Two requests of one scope and hash on the repository's table, of which the first, at a time at
-- which the running timeout of the record in progress has passed, takes the record over. The second
-- comes before the new timeout: had it read the record after that, it would be refused as in
-- process, since the table then holds a record that is not stale. Where it has read the record
-- before, it is started as well: both run the handler for one key.
pub double_start :
    (t1 t2 : Time) (k : Scope) (rec : Record) (s : List Record)
    → find k s ≡ ok rec
    → rec.status ≡ in_progress
    → stale t1 rec.running_expires_at ≡ true
    → t1 ≤ t2
    → t2 ≤ t1 + running_timeout
    → let s1 = (restart_row rec.id rec.request_hash (t1 + running_timeout) t1 s).1 in
      let s2 = (restart_row rec.id rec.request_hash (t2 + running_timeout) t2 s1).1 in
      let taken = restarted_row rec.request_hash (t1 + running_timeout) t1 rec in
      (decision_for_existing table t1 rec rec.request_hash s ≡ (
        ok (
            started
              (record rec { updated_at = t1; running_expires_at = some (t1 + running_timeout) })),
        s1,
      ))
      × (find k s1 ≡ ok taken)
      × (decision_for_existing table t2 taken rec.request_hash s1 ≡ (err request_in_process, s1))
      × (decision_for_existing table t2 rec rec.request_hash s1 ≡ (
        ok (
            started
              (record rec { updated_at = t2; running_expires_at = some (t2 + running_timeout) })),
        s2,
      ))
unfolding restart_row
double_start t1 t2 k rec s found live late order early =
    let s1 = (restart_row rec.id rec.request_hash (t1 + running_timeout) t1 s).1 in
    let s2 = (restart_row rec.id rec.request_hash (t2 + running_timeout) t2 s1).1 in
    (
      takes_over table t1 rec s s1 live late refl,
      restarted_live k rec.request_hash (t1 + running_timeout) t1 rec s live found,
      refused_after t1 t2 rec s1 live early,
      takes_over table t2 rec s1 s2 live (stale_later t1 t2 rec.running_expires_at late order) refl,
    )
