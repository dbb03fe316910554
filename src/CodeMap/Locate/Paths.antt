-- ===== src/CodeMap/Locate/Paths.antt =====
-- The test for an ancestor path, described by segments.
use mcp_project_server.Prelude.{◌≡◌, ◌≢◌, ◌↔◌, ◌⊎◌, inl, inr, true, [], ◌++◌, arith, Bool-cases}
use mcp_project_server.Js.Str.{Str, codes, str_eq, str_eq_iff, starts_with_iff}
use mcp_project_server.CodeMap.Locate.{is_ancestor_path}

-- The path itself, or a directory above it.
abbrev pub IsAncestor : Str → Str → Type 0
IsAncestor a path = (a ≢ []) × ((a ≡ path) ⊎ ((r : Str) × (path ≡ (a ++ codes "/") ++ r)))

is_ancestor_path_sound : (a path : Str) → is_ancestor_path a path ≡ true → IsAncestor a path
unfolding is_ancestor_path
is_ancestor_path_sound a path h = (
  ground (arith, str_eq_iff a []),
  elim (Bool-cases (str_eq a path)) [
    | inl same ↦ inl ((str_eq_iff a path).0 same)
    | inr other ↦ inr ((starts_with_iff path (a ++ codes "/")).0 (ground arith))
  ],
)

is_ancestor_path_complete : (a path : Str) → IsAncestor a path → is_ancestor_path a path ≡ true
unfolding is_ancestor_path
is_ancestor_path_complete a path (h, inl same) = ground (arith, str_eq_iff a [], str_eq_iff a path)
is_ancestor_path_complete a path (h, inr below) =
    ground (arith, str_eq_iff a [], (starts_with_iff path (a ++ codes "/")).1 below)

-- The test holds exactly for a nonempty path that is the path itself or a directory above it.
pub is_ancestor_path_iff : (a path : Str) → (is_ancestor_path a path ≡ true) ↔ IsAncestor a path
is_ancestor_path_iff a path = (is_ancestor_path_sound a path, is_ancestor_path_complete a path)
