-- ===== src/Rbac/Matching.antt =====
-- rbac/rbac.go: PermissionMatches, IsAllowed and CheckPermission.
use synapse_go.Base.{
  ℕ, Bool, false, not, ◌&&◌, ◌||◌, Option, none, some, List, [], ◌∷◌, ◌++◌, ◌==◌, if◌then◌else◌,
  nat_eq, list_beq, Text, text_eq, codes, is_empty, trim, trim_space, has_prefix,
}

unfoldable pub prepend : ℕ → Option Text → Option Text
prepend c none = none
prepend c (some s) = some (c ∷ s)

-- A text without a suffix that it has: `strings.HasSuffix` and `strings.TrimSuffix`.
unfoldable pub cut_suffix : Text → Text → Option Text
unfolding prepend
cut_suffix suffix [] = if list_beq [] suffix then some [] else none
cut_suffix suffix (c ∷ s) =
    let rest = prepend c (cut_suffix suffix s) in if list_beq (c ∷ s) suffix then some [] else rest

-- The codes after trimming.
unfoldable pub matches_trimmed : Text → Text → Bool
unfolding cut_suffix
matches_trimmed granted requested =
    not (is_empty granted || is_empty requested)
    && (list_beq granted (codes "*")
        || list_beq granted requested
        || elim (cut_suffix (codes ".*") granted) [
          | none ↦ false
          | some prefix ↦ list_beq requested prefix || has_prefix requested (prefix ++ codes ".")
        ])

unfoldable pub permission_matches : Text → Text → Bool
unfolding matches_trimmed
permission_matches granted requested = matches_trimmed (trim_space granted) (trim_space requested)

unfoldable pub is_allowed : List Text → Text → Bool
is_allowed [] requested = false
is_allowed (code ∷ granted) requested =
    let rest = is_allowed granted requested in permission_matches code requested || rest

-- What `any` may hold as a subject.
pub data Subject : Type 0 where
  code_list : List Text → Subject
  permission_coder : List Text → Subject
  other : Subject

unfoldable pub permission_codes : Subject → List Text
permission_codes (code_list granted) = granted
permission_codes (permission_coder granted) = granted
permission_codes other = []

-- A part of a code without the spaces and then the points around it.
unfoldable pub part : Text → Text
part s = trim (λ c. c == b'.') (trim_space s)

-- Whether `CheckPermission` returns no error; its only error is ErrPermissionDenied.
unfoldable pub check_permission : Subject → Text → Text → Bool
check_permission subject resource action =
    let res = part resource in
    let act = part action in
    let requested = res ++ codes "." ++ act in
    if is_empty res || is_empty act || list_beq requested (codes ".")
    then false
    else is_allowed (permission_codes subject) requested
