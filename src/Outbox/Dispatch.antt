-- ===== src/Outbox/Dispatch.antt =====
-- What Dispatch leaves, in whatever order the map is read.
use synapse_go.Base.{
  ◌≡◌, refl, sym, ap, ap₂, ◌∙◌, inl, inr, Bool, true, false, ◌||◌, Option, none, some, List, [],
  ◌∷◌, arith, if◌then◌else◌, Bool-cases, Option-cases, nat_eq, list_beq, list_beq_iff, lookup,
  insert, lookup-insert, lookup-insert_ne, Text, text_eq, is_empty, Time, is_zero,
}
use synapse_go.Outbox.{
  OutboxRecord, MemoryStore, add_new, enqueue, is_waiting, waiting, pending, mark, mark_dispatched,
  after_mark, mark_all, dispatch,
}

unfoldable pub any_of : (OutboxRecord → Bool) → List OutboxRecord → Bool
any_of p [] = false
any_of p (r ∷ rs) = let rest = any_of p rs in p r || rest

-- An order of reading shows what is there, and nothing else.
unfoldable pub IsOrder : (List OutboxRecord → List OutboxRecord) → Type 0
IsOrder order =
    (p : OutboxRecord → Bool) (rs : List OutboxRecord) → any_of p (order rs) ≡ any_of p rs

-- Each record stands under its own id.
unfoldable pub Keyed : List (Text × OutboxRecord) → Type 0
Keyed [] = Unit
Keyed ((k, r) ∷ m) = (r.id ≡ k) × Keyed m

missing : MemoryStore → OutboxRecord → Bool
missing s r = elim (lookup r.id s.records) [ none ↦ true | some old ↦ false ]

named : Text → OutboxRecord → Bool
named id r = list_beq r.id id

dispatched : (Text → Time) → Text → OutboxRecord → OutboxRecord
dispatched clock id r = record r { dispatched_at = some (clock id) }

after_all : (Text → Time) → Text → Bool → Option OutboxRecord → Option OutboxRecord
unfolding dispatched
after_all clock id b none = none
after_all clock id b (some r) = some (if b then dispatched clock id r else r)

any_of-cong :
    (p q : OutboxRecord → Bool) (rs : List OutboxRecord)
    → ((r : OutboxRecord) → p r ≡ q r)
    → any_of p rs ≡ any_of q rs
unfolding any_of
any_of-cong p q [] h = refl
any_of-cong p q (r ∷ rs) h = ap₂ (λ a b. a || b) (h r) (any_of-cong p q rs h)

mark-none :
    (clock : Text → Time) (r : OutboxRecord) (s : MemoryStore)
    → missing s r ≡ false
    → (mark_dispatched (clock r.id) r.id s).0 ≡ none
unfolding mark_dispatched mark missing
mark-none clock r s h = elim (Option-cases (lookup r.id s.records)) [
  | inl gone ↦ absurd (ground (arith, gone))
  | inr (old, found) ↦ ground (arith, found)
]

lookup-mark :
    (clock : Text → Time) (r : OutboxRecord) (s : MemoryStore) (id : Text)
    → missing s r ≡ false
    → lookup id (mark_dispatched (clock r.id) r.id s).1.records
      ≡ after_all clock id (named id r) (lookup id s.records)
unfolding mark_dispatched mark missing after_all named dispatched
lookup-mark clock r s id h = elim (Option-cases (lookup r.id s.records)) [
  | inl gone ↦ absurd (ground (arith, gone))
  | inr (old, found) ↦
      let new = record old { dispatched_at = some (clock r.id) } in
      elim (Bool-cases (list_beq r.id id)) [
        | inl same ↦
            let e : r.id ≡ id = (list_beq_iff r.id id).0 same in
            let at_id : lookup id s.records ≡ some old =
              ap (λ k. lookup k s.records) (sym e) ∙ found in
            ground (arith, found, lookup-insert r.id id new s.records, same, at_id, ap clock e)
        | inr differ ↦ ground (
          arith,
          found,
          lookup-insert r.id id new s.records,
          differ,
          Option-cases (lookup id s.records),
        )
      ]
]

missing-after :
    (clock : Text → Time) (r x : OutboxRecord) (s : MemoryStore)
    → missing s r ≡ false
    → missing (mark_dispatched (clock r.id) r.id s).1 x ≡ missing s x
unfolding missing after_all
missing-after clock r x s h =
    ground (arith, lookup-mark clock r s x.id h, Option-cases (lookup x.id s.records))

twice :
    (clock : Text → Time) (id : Text) (a b : Bool) (o : Option OutboxRecord)
    → after_all clock id a (after_all clock id b o) ≡ after_all clock id (b || a) o
unfolding after_all dispatched
twice clock id a b none = refl
twice clock id true true (some r) = refl
twice clock id true false (some r) = refl
twice clock id false true (some r) = refl
twice clock id false false (some r) = refl

untouched :
    (clock : Text → Time) (id : Text) (o : Option OutboxRecord) → o ≡ after_all clock id false o
unfolding after_all
untouched clock id none = refl
untouched clock id (some r) = refl

mark_all-step :
    (clock : Text → Time) (r : OutboxRecord) (rs : List OutboxRecord) (s : MemoryStore)
    → missing s r ≡ false
    → mark_all clock (r ∷ rs) s ≡ mark_all clock rs (mark_dispatched (clock r.id) r.id s).1
unfolding mark_all after_mark
mark_all-step clock r rs s h = ground (arith, mark-none clock r s h)

mark_all-lem :
    (clock : Text → Time) (rs : List OutboxRecord) (s : MemoryStore) (id : Text)
    → any_of (missing s) rs ≡ false
    → ((mark_all clock rs s).0 ≡ none)
      × (lookup id (mark_all clock rs s).1.records
          ≡ after_all clock id (any_of (named id) rs) (lookup id s.records))
unfolding any_of
mark_all-lem clock [] s id h = unfold mark_all in (refl, untouched clock id (lookup id s.records))
mark_all-lem clock (r ∷ rs) s id h =
    let here_r : missing s r ≡ false = ground arith in
    let s' = (mark_dispatched (clock r.id) r.id s).1 in
    let there_rs : any_of (missing s') rs ≡ false =
      any_of-cong (missing s') (missing s) rs (λ x. missing-after clock r x s here_r)
      ∙ ground arith in
    let (a, b) = mark_all-lem clock rs s' id there_rs in
    let e = mark_all-step clock r rs s here_r in
    (
      ap (λ x. x.0) e ∙ a,
      ap (λ x. lookup id x.1.records) e
          ∙ b
          ∙ ap (after_all clock id (any_of (named id) rs)) (lookup-mark clock r s id here_r)
          ∙ twice clock id (any_of (named id) rs) (named id r) (lookup id s.records),
    )

has : Text → List (Text × OutboxRecord) → Bool
has k m = elim (lookup k m) [ none ↦ false | some r ↦ true ]

all_found :
    (m : List (Text × OutboxRecord)) (s : MemoryStore)
    → Keyed m
    → ((k : Text) → has k m ≡ true → has k s.records ≡ true)
    → any_of (missing s) (waiting m) ≡ false
unfolding any_of waiting Keyed missing has lookup
all_found [] s keyed h = refl
all_found ((k, r) ∷ m) s keyed h =
    let rest = all_found m s keyed.1 (λ j found. h j (ground (arith, found))) in
    let own : has k s.records ≡ true = h k (ground (arith, list_beq_iff k k)) in
    ground (arith, rest, keyed.0, own)

waits :
    (m : List (Text × OutboxRecord)) (id : Text) (r : OutboxRecord)
    → Keyed m
    → lookup id m ≡ some r
    → is_waiting r ≡ true
    → any_of (named id) (waiting m) ≡ true
unfolding any_of waiting Keyed named lookup
waits [] id r keyed found w = absurd (ground arith)
waits ((k, x) ∷ m) id r keyed found w = elim (Bool-cases (list_beq k id)) [
  | inl same ↦
      let e : x ≡ r = ground (arith, same, found) in
      let w' : is_waiting x ≡ true = ap is_waiting e ∙ w in
      ground (arith, w', ap (λ j. list_beq j id) keyed.0, same)
  | inr differ ↦ ground (arith, waits m id r keyed.1 (ground (arith, found, differ)) w)
]

dispatched_at_last :
    (clock : Text → Time) (id : Text) (r : OutboxRecord) (b : Bool)
    → (is_waiting r ≡ true → b ≡ true)
    → (t : Time) × (after_all clock id b (some r) ≡ some (record r { dispatched_at = some t }))
unfolding after_all dispatched is_waiting
dispatched_at_last clock id r true h = (clock id, refl)
dispatched_at_last clock id r false h = elim (Option-cases (r.dispatched_at)) [
  | inl waits_still ↦ absurd (ground (arith, h (ground (arith, waits_still))))
  | inr (t, done) ↦ (t, ground (arith, done))
]

-- Dispatch, in whatever order it reads the map, reports no error, and leaves every record that was
-- in the store marked as dispatched and otherwise as it was. Each record stands under its own id.
pub dispatch_lem :
    (clock : Text → Time) (order : List OutboxRecord → List OutboxRecord) (s : MemoryStore)
    (id : Text) (r : OutboxRecord)
    → IsOrder order
    → Keyed s.records
    → lookup id s.records ≡ some r
    → let (e, s') = dispatch clock order s in
      (e ≡ none)
      × ((t : Time) × (lookup id s'.records ≡ some (record r { dispatched_at = some t })))
unfolding dispatch pending IsOrder
dispatch_lem clock order s id r reads keyed found =
    let none_missing =
      reads (missing s) (waiting s.records) ∙ all_found s.records s keyed (λ k h. h) in
    let (a, b) = mark_all-lem clock (order (waiting s.records)) s id none_missing in
    let all_named = any_of (named id) (order (waiting s.records)) in
    let (t, e) =
      dispatched_at_last clock id r all_named
        (λ w. reads (named id) (waiting s.records) ∙ waits s.records id r keyed found w) in
    (a, (t, b ∙ ap (after_all clock id all_named) found ∙ e))

insert-Keyed :
    (r : OutboxRecord) (m : List (Text × OutboxRecord)) → Keyed m → Keyed (insert r.id r m)
unfolding Keyed insert
insert-Keyed r [] h = (refl, tt)
insert-Keyed r ((k, x) ∷ m) h = elim (Bool-cases (list_beq k r.id)) [
  | inl same ↦ rw same (refl, h.1)
  | inr differ ↦ rw differ (h.0, insert-Keyed r m h.1)
]

-- Enqueue keeps each record under its own id and overwrites none, whatever record it is given.
enqueue-Keyed :
    (now : Time) (rec : Option OutboxRecord) (s : MemoryStore) (id : Text) (old : OutboxRecord)
    → Keyed s.records
    → lookup id s.records ≡ some old
    → let s' = (enqueue now rec s).1 in Keyed s'.records × (lookup id s'.records ≡ some old)
unfolding enqueue
enqueue-Keyed now none s id old keyed found = (keyed, found)
enqueue-Keyed now (some r) s id old keyed found =
    elim (Bool-cases (is_empty r.id || is_empty r.tenant_id || is_empty r.event_type)) [
      | inl invalid ↦ rw invalid (keyed, found)
      | inr valid ↦ rw valid (added (lookup r.id s.records) refl)
    ]
  where
    fresh : OutboxRecord
    fresh = if is_zero r.created_at then record r { created_at = now } else r

    fresh_id : fresh.id ≡ r.id
    fresh_id = elim (Bool-cases (is_zero r.created_at)) [
      | inl blank ↦ rw blank refl
      | inr dated ↦ rw dated refl
    ]

    added :
        (o : Option OutboxRecord)
        → lookup r.id s.records ≡ o
        → Keyed (add_new o now r s).1.records × (lookup id (add_new o now r s).1.records ≡ some old)
    added (some x) e = (keyed, found)
    added none e = (
      insert-Keyed fresh s.records keyed,
      lookup-insert_ne fresh.id id fresh s.records (λ p.
            absurd (ground (arith, found, e, ap (λ k. lookup k s.records) (sym fresh_id ∙ p))))
          ∙ found,
    )
