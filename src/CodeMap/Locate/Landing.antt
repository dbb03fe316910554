-- ===== src/CodeMap/Locate/Landing.antt =====
-- What each answer of `locateHit` says of the graph.
use mcp_project_server.Prelude.{
  ◌≡◌, refl, sym, ◌∙◌, ap, ◌≢◌, ◌⊎◌, inl, inr, true, false, Option, none, some, List, [], ◌∷◌,
  append_assoc, arith, subst, All, Bool-cases, Option-cases,
}
use mcp_project_server.Js.Str.{Str, str_eq, str_eq_iff, split, split_head}
use mcp_project_server.Js.Map.{get, values}
use mcp_project_server.CodeMap.Graph.{MergedNode, CodeGraph}
use mcp_project_server.CodeMap.Locate.{
  LocateResult, node, expand, unreachable, first_or, top_segment, is_ancestor_path, deepest,
  is_collapsed, settle, file_id, locate_hit,
}
use mcp_project_server.CodeMap.Locate.Paths.{IsAncestor, is_ancestor_path_iff}
use mcp_project_server.CodeMap.Locate.Deepest.{IsDeepest, deepest_sound, deepest-none}

abbrev pub HasNoAncestor : Str → List MergedNode → Type 0
HasNoAncestor path nodes = All (λ m. is_ancestor_path m.path path ≢ true) nodes

abbrev pub Lands : CodeGraph → Str → LocateResult → Type 0
Lands g path (node id) =
    ((n : MergedNode) × (get g.nodes (file_id path) ≡ some n) × (n.id ≡ id))
    ⊎ ((n : MergedNode) × IsDeepest path (values g.nodes) n
        × (is_collapsed n ≡ false)
        × (n.id ≡ id))
Lands g path (expand scope) =
    (get g.nodes (file_id path) ≡ none)
    × (((n : MergedNode) × IsDeepest path (values g.nodes) n
          × (is_collapsed n ≡ true)
          × (n.path ≡ scope))
        ⊎ (HasNoAncestor path (values g.nodes)
            × (top_segment path ≡ scope)
            × (scope ≢ [])
            × (scope ≢ path)))
Lands g path unreachable =
    (get g.nodes (file_id path) ≡ none)
    × HasNoAncestor path (values g.nodes)
    × ((top_segment path ≡ []) ⊎ (top_segment path ≡ path))

module _ (g : CodeGraph) (path : Str) (absent : get g.nodes (file_id path) ≡ none) where
  settle-Lands :
      (o : Option MergedNode) → deepest path (values g.nodes) ≡ o → Lands g path (settle path o)
  unfolding settle
  settle-Lands (some n) e =
      let deep = deepest_sound path (values g.nodes) n e in
      elim (Bool-cases (is_collapsed n)) [
        | inl shut ↦ rw shut (absent, inl (n, deep, shut, refl))
        | inr expanded ↦ rw expanded (inr (n, deep, expanded, refl))
      ]
  settle-Lands none e =
      let far = deepest-none path (values g.nodes) e in
      elim (Bool-cases (str_eq (top_segment path) [])) [
        | inl empty ↦ rw empty (absent, far, inl ((str_eq_iff _ _).0 empty))
        | inr nonempty ↦ elim (Bool-cases (str_eq (top_segment path) path)) [
          | inl whole ↦ rw (nonempty, whole) (absent, far, inr ((str_eq_iff _ _).0 whole))
          | inr part ↦
              rw (nonempty, part)
                (
                  absent,
                  inr (
                    far,
                    refl,
                    ground (arith, str_eq_iff (top_segment path) []),
                    ground (arith, str_eq_iff (top_segment path) path),
                  ),
                )
        ]
      ]

-- Every answer of `locateHit` is right: a node is the file's own, or a deepest node on or above
-- the path that is no collapsed directory; a scope to expand is the path of a collapsed directory
-- that is a deepest node on or above the path, or, where the graph has no such node, the first
-- segment of the path; "unreachable" means that no node is on or above the path and that its
-- first segment is empty or all of it.
pub locate_hit-Lands : (g : CodeGraph) (path : Str) → Lands g path (locate_hit g path)
unfolding locate_hit
locate_hit-Lands g path = elim (Option-cases (get g.nodes (file_id path))) [
  | inl absent ↦ rw absent (settle-Lands g path absent (deepest path (values g.nodes)) refl)
  | inr (n, found) ↦ rw found (inl (n, found, refl))
]

top_segment_cons :
    (c : _) (s p : Str) (ps : List Str) → split b'/' (c ∷ s) ≡ p ∷ ps → top_segment (c ∷ s) ≡ p
unfolding top_segment str_eq
top_segment_cons c s p ps e = ap (first_or (c ∷ s)) e

top_segment-IsAncestor : (path : Str) → top_segment path ≢ [] → IsAncestor (top_segment path) path
top_segment-IsAncestor [] h = absurd (h (unfold top_segment str_eq in refl))
top_segment-IsAncestor (c ∷ s) h =
    let (p, ps, parts, cut) = split_head b'/' (c ∷ s) in
    let top = top_segment_cons c s p ps parts in
    (
      h,
      elim cut [
        | inl whole ↦ inl (top ∙ sym whole)
        | inr (r, e) ↦ inr (r, e ∙ rw (top, append_assoc) refl)
      ],
    )

-- A scope that `locateHit` asks to expand is the path itself or a directory above it.
pub locate_hit-expand :
    (g : CodeGraph) (path scope : Str) → locate_hit g path ≡ expand scope → IsAncestor scope path
locate_hit-expand g path scope e = elim (subst (Lands g path) e (locate_hit-Lands g path)).1 [
  | inl (n, deep, shut, same) ↦
      subst (λ (s : Str). IsAncestor s path) same ((is_ancestor_path_iff n.path path).0 deep.above)
  | inr (far, same, nonempty, part) ↦
      subst (λ (s : Str). IsAncestor s path) same
        (top_segment-IsAncestor path (λ e. nonempty (sym same ∙ e)))
]
