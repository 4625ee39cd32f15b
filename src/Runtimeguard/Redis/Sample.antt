-- ===== src/Runtimeguard/Redis/Sample.antt =====
-- An instance of the interface of counters: a store of one cell for a key.
use synapse_go.Base.{
  ℕ, ◌+◌, ◌≤◌, ◌<◌, ◌≡◌, refl, inl, inr, Option, none, some, arith, if◌then◌else◌, Option-cases,
  nat_eq, list_beq, Text, text_eq,
}
use synapse_go.Runtimeguard.Windows.{Cell, is_over, lapse, bumped, until, Windows}

abbrev pub Cells : Type 0
Cells = Text → Option Cell

abbrev pub put : Text → Option Cell → Cells → Cells
put k c s j = if list_beq k j then c else s j

pub lapse_later : (now t : ℕ) (c : Option Cell) → now ≤ t → lapse t c ≡ lapse t (lapse now c)
unfolding lapse is_over
lapse_later now t none h = refl
lapse_later now t (some c) h = elim (Option-cases c.deadline) [
  | inl e ↦ ground arith
  | inr (d, e) ↦ ground arith
]

lapse-bumped :
    (now : ℕ) (c : Option Cell)
    → lapse now (some (bumped (lapse now c))) ≡ some (bumped (lapse now c))
unfolding lapse is_over bumped
lapse-bumped now none = refl
lapse-bumped now (some c) = elim (Option-cases c.deadline) [
  | inl e ↦ ground arith
  | inr (d, e) ↦ ground arith
]

lapse-until :
    (now ms : ℕ) (c : Option Cell) → 0 < ms → lapse now (until (now + ms) c) ≡ until (now + ms) c
unfolding lapse is_over until
lapse-until now ms none p = refl
lapse-until now ms (some c) p = ground arith

pub cells_incr :
    (k j : Text) (now : ℕ) (s : Cells)
    → lapse now (put k (some (bumped (lapse now (s k)))) s j)
      ≡ (if list_beq k j then some (bumped (lapse now (s k))) else lapse now (s j))
cells_incr k j now s = ground (arith, lapse-bumped now (s k))

pub cells_pexpire :
    (k j : Text) (ms now : ℕ) (s : Cells)
    → 0 < ms
    → lapse now (put k (until (now + ms) (lapse now (s k))) s j)
      ≡ (if list_beq k j then until (now + ms) (lapse now (s k)) else lapse now (s j))
cells_pexpire k j ms now s p = ground (arith, lapse-until now ms (lapse now (s k)) p)

abbrev pub cells : Windows
cells = record {
  Store = Cells;
  cell = λ k t s. lapse t (s k);
  incr = λ k now s. put k (some (bumped (lapse now (s k)))) s;
  pexpire = λ k ms now s. put k (until (now + ms) (lapse now (s k))) s;
  cell_later = λ k now t s h. lapse_later now t (s k) h;
  cell-incr = cells_incr;
  cell-pexpire = cells_pexpire;
}

abbrev pub empty : Cells
empty k = none
