-- ===== src/Rbac/Tests.antt =====
-- Permission codes of the test vectors, and the theorems at one of them.
use synapse_go.Base.{
  ◌≡◌, refl, ◌↔◌, true, false, [], ◌∷◌, ◌++◌, Any, nat_eq, list_beq, text_eq, codes, is_empty,
  is_space, trim, has_prefix,
}
use synapse_go.Rbac.Matching.{
  prepend, cut_suffix, matches_trimmed, permission_matches, is_allowed, Subject, code_list,
  permission_codes, part, check_permission,
}
use synapse_go.Rbac.Covers.{Granted, check_permission_iff}

program : Unit {0}
unfolding check_permission is_allowed permission_matches matches_trimmed cut_suffix prepend part
    trim is_space list_beq has_prefix permission_codes
program = tt

wildcard : permission_matches (codes "cargo.*") (codes " cargo.parcel.read ") ≡ true
unfolding program
wildcard = refl

sibling : permission_matches (codes "cargo.*") (codes "cargox.read") ≡ false
unfolding program
sibling = refl

abbrev clerk : Subject
clerk = code_list (codes "orders.read" ∷ codes "cargo.*" ∷ [])

check_permission_iff_example :
    (check_permission clerk (codes "cargo.parcel") (codes ".read") ≡ true) ↔ (
      (is_empty (part (codes "cargo.parcel")) ≡ false)
      × (is_empty (part (codes ".read")) ≡ false)
      × Any
          (Granted (part (codes "cargo.parcel") ++ codes "." ++ part (codes ".read")))
          (permission_codes clerk))
check_permission_iff_example = check_permission_iff clerk (codes "cargo.parcel") (codes ".read")

clerk_reads : check_permission clerk (codes "cargo.parcel") (codes ".read") ≡ true
unfolding program
clerk_reads = refl
