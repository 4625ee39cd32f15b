-- ===== src/Events/Processed.antt =====
-- A consumer processes an event once.
use synapse_go.Base.{
  ◌≡◌, sym, ap, ◌∙◌, ◌⊎◌, inl, inr, Bool, true, false, none, some, ◌∷◌, arith, ◌==◌, ltb,
  Bool-cases, nat_eq, list_beq, list_beq_iff, Text, text_eq, is_empty, trim_space, Time,
}
use synapse_go.Events.{
  Row, EventProcessed, Tables, same_pair, count_pair, is_processed_row, mark_processed_row,
}
use synapse_go.Events.Service.{is_processed, after_lookup, mark_processed}

abbrev entry : Time → Text → Row → EventProcessed
entry now name e = record {
  consumer_name = name;
  event_id = e.event_id;
  tenant_id = e.tenant_id;
  processed_at = now;
}

written :
    (name : Text) (e : Row) (f g : Bool) (now : Time) (t t' : Tables)
    → after_lookup (is_processed_row f name e.event_id t) g (entry now name e) t ≡ (none, t')
    → (ltb 0 (count_pair name e.event_id t'.event_processed) ≡ true)
      × ((t' ≡ t) ⊎ (t' ≡ record t { event_processed = entry now name e ∷ t.event_processed }))
unfolding after_lookup is_processed_row mark_processed_row count_pair same_pair
written name e f g now t t' h =
    elim (Bool-cases (ltb 0 (count_pair name e.event_id t.event_processed))) [
      | inl old ↦ ground (arith, old, h, list_beq_iff name name, list_beq_iff e.event_id e.event_id)
      | inr new ↦ ground (arith, new, h, list_beq_iff name name, list_beq_iff e.event_id e.event_id)
    ]

accepted :
    (f g : Bool) (now : Time) (consumer : Text) (e : Row) (t t' : Tables)
    → mark_processed f g now consumer (some e) t ≡ (none, t')
    → (is_empty (trim_space consumer) ≡ false)
      × (is_empty e.event_id ≡ false)
      × ((e.tenant_id == 0) ≡ false)
      × (after_lookup
            (is_processed_row f (trim_space consumer) e.event_id t)
            g
            (entry now (trim_space consumer) e)
            t
          ≡ (none, t'))
unfolding mark_processed
accepted f g now consumer e t t' h = ground arith

unread :
    (name consumer : Text) (e : Row) (now : Time) (t t' : Tables)
    → list_beq name consumer ≡ false
    → count_pair consumer e.event_id t.event_processed ≡ 0
    → (t' ≡ t) ⊎ (t' ≡ record t { event_processed = entry now name e ∷ t.event_processed })
    → ltb 0 (count_pair consumer e.event_id t'.event_processed) ≡ false
unfolding count_pair same_pair
unread name consumer e now t t' d c (inl p) =
    ap (λ (x : Tables). ltb 0 (count_pair consumer e.event_id x.event_processed)) p
    ∙ ground (arith, c)
unread name consumer e now t t' d c (inr p) =
    ap (λ (x : Tables). ltb 0 (count_pair consumer e.event_id x.event_processed)) p
    ∙ ground (arith, c, d)

-- A consumer that has marked an event as processed marks it again without an effect and without an
-- error. Read under the name that it was marked with, the event is reported as processed if that
-- name has no space at an end, and as not processed otherwise. The event's id is not blank, and the
-- name as it is given had not been recorded for the event.
pub processed_exact :
    (f g : Bool) (now later : Time) (consumer : Text) (e : Row) (t t' : Tables)
    → is_empty (trim_space e.event_id) ≡ false
    → count_pair consumer e.event_id t.event_processed ≡ 0
    → mark_processed f g now consumer (some e) t ≡ (none, t')
    → (mark_processed false g later consumer (some e) t' ≡ (none, t'))
      × (is_processed false consumer e.event_id t' ≡ inr (list_beq (trim_space consumer) consumer))
unfolding mark_processed is_processed is_processed_row after_lookup
processed_exact f g now later consumer e t t' named fresh h =
    let name = trim_space consumer in
    let (a, b, c, stored) = accepted f g now consumer e t t' h in
    let (found, change) = written name e f g now t t' stored in
    (
      ground (arith, a, b, c, found),
      ground (arith, a, named)
          ∙ ap inr (elim (Bool-cases (list_beq name consumer)) [
            | inl same ↦
                ap (λ x. ltb 0 (count_pair x e.event_id t'.event_processed))
                  (sym ((list_beq_iff name consumer).0 same))
                ∙ found
                ∙ sym same
            | inr differ ↦ unread name consumer e now t t' differ fresh change ∙ sym differ
          ]),
    )
