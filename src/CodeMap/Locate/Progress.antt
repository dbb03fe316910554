-- ===== src/CodeMap/Locate/Progress.antt =====
-- In the control panel's version a merge of the scope that `locateHit` asked for brings it nearer.
use mcp_project_server.Prelude.{
  ◌≤◌, ◌<◌, ◌≡◌, refl, sym, ap, ◌∙◌, ◌≢◌, inl, inr, true, false, some, [], ◌∷◌, ◌++◌, length, All,
  All-In, In, append-nil, dec_lt, append_assoc, arith, subst,
}
use mcp_project_server.Js.Str.{Str, codes, str_eq_refl}
use mcp_project_server.Js.Map.{get, values, Each-values, Each-any, update_all-Each, get-In}
use mcp_project_server.Api.Types.{CodeMap, CodeMapNode}
use mcp_project_server.CodeMap.Graph.{
  MergedNode, CodeGraph, mark_expanded, merge_tier, is_directory, aggregate_id, drop_tier_edges,
  panel_merge_code_map,
}
use mcp_project_server.CodeMap.Merge.{
  IsSubtree, OnlyStubs, IsSameNode, panel_merge_keeps_real, panel_merge_code_map_subtree,
}
use mcp_project_server.CodeMap.Locate.{expand, is_ancestor_path, is_collapsed, locate_hit}
use mcp_project_server.CodeMap.Locate.Paths.{IsAncestor, is_ancestor_path_iff}
use mcp_project_server.CodeMap.Locate.Deepest.{IsDeepest}
use mcp_project_server.CodeMap.Locate.Landing.{Lands, locate_hit-Lands}

-- Two prefixes of one text that have one length are equal.
prefix_eq_of_length : (a b r s : Str) → a ++ r ≡ b ++ s → length a ≡ length b → a ≡ b
prefix_eq_of_length [] [] r s e l = refl
prefix_eq_of_length [] (d ∷ b) r s e l = absurd (omega arith)
prefix_eq_of_length (c ∷ a) [] r s e l = absurd (omega arith)
prefix_eq_of_length (c ∷ a) (d ∷ b) r s e l = ground (arith, prefix_eq_of_length a b r s)

IsAncestor-prefix : (a path : Str) → IsAncestor a path → (r : Str) × (path ≡ a ++ r)
IsAncestor-prefix a path (h, inl same) = ([], sym same ∙ sym (append-nil a))
IsAncestor-prefix a path (h, inr (r, e)) = (codes "/" ++ r, e ∙ append_assoc a (codes "/") r)

eq_of_ancestors :
    (a b path : Str) → IsAncestor a path → IsAncestor b path → length a ≡ length b → a ≡ b
eq_of_ancestors a b path h k l =
    let (r, e) = IsAncestor-prefix a path h in
    let (s, f) = IsAncestor-prefix b path k in prefix_eq_of_length a b r s (sym e ∙ f) l

-- The directories at the scope are expanded.
abbrev IsOpenAt : Str → MergedNode → Type 0
IsOpenAt scope n = n.path ≡ scope → is_directory n.kind ≡ true → n.expanded ≡ true

mark_expanded-IsOpenAt :
    (scope id : Str) (n : MergedNode) → IsOpenAt scope (mark_expanded scope id n)
unfolding mark_expanded
mark_expanded-IsOpenAt scope id n same dir = ground (arith, str_eq_refl scope)

merge_tier-IsOpenAt :
    (scope : Str) (g : CodeGraph) (map : CodeMap)
    → All (IsOpenAt scope) (values (merge_tier scope g map).nodes)
unfolding merge_tier
merge_tier-IsOpenAt scope g map =
    Each-values (λ k n. IsOpenAt scope n) (IsOpenAt scope) _ (λ k n p. p)
      (update_all-Each (λ k n. IsOpenAt scope n) (λ k n. IsOpenAt scope n) _ _ (λ k n p. p)
        (update_all-Each (λ k n. Unit {0}) (λ k n. IsOpenAt scope n) (mark_expanded scope) _
          (λ k n _. mark_expanded-IsOpenAt scope k n) (Each-any _)))

module _ (g : CodeGraph) (map : CodeMap) (scope path : Str) (sub : IsSubtree map scope)
    (old : MergedNode) (found : get g.nodes (aggregate_id scope) ≡ some old)
    (real : old.outside_scope ≡ false) (at_scope : old.path ≡ scope)
    (stubs : OnlyStubs (aggregate_id scope) map.nodes) (above : IsAncestor scope path) where
  abbrev merged : CodeGraph
  merged = panel_merge_code_map g map

  kept :
      (new : MergedNode) × (get merged.nodes (aggregate_id scope) ≡ some new) × IsSameNode old new
  kept = panel_merge_keeps_real g map scope sub (aggregate_id scope) old found real stubs

  path-kept : kept.0.path ≡ scope
  path-kept = ap (λ (n : CodeMapNode). n.path) kept.2.node ∙ at_scope

  here : In kept.0 (values merged.nodes)
  here = get-In merged.nodes (aggregate_id scope) kept.0 kept.1

  above_new : is_ancestor_path kept.0.path path ≡ true
  above_new = rw path-kept ((is_ancestor_path_iff scope path).1 above)

  IsOpenAt-scope : All (IsOpenAt scope) (values merged.nodes)
  IsOpenAt-scope =
      rw (panel_merge_code_map_subtree g map scope sub)
        (merge_tier-IsOpenAt scope (drop_tier_edges scope g) map)

  -- A collapsed deepest node is deeper than the scope.
  longer :
      (m : MergedNode)
      → IsDeepest path (values merged.nodes) m
      → is_collapsed m ≡ true
      → length scope < length m.path
  longer m deep shut =
      let at_least : length kept.0.path ≤ length m.path =
        All-In (λ n. is_ancestor_path n.path path ≡ true → length n.path ≤ length m.path) _
          deep.longest here above_new in
      let at_least' : length scope ≤ length m.path = rw path-kept at at_least in
      elim (dec_lt (length scope) (length m.path)) [
        | yes l ↦ l
        | no l ↦
            let equal : m.path ≡ scope =
              eq_of_ancestors m.path scope path ((is_ancestor_path_iff m.path path).0 deep.above)
                above (omega arith) in
            let open_m = All-In (IsOpenAt scope) _ IsOpenAt-scope deep.among equal in
            absurd (ground (arith, open_m))
      ]

  -- If the scope is the path of its own directory node, a merge of its response makes the next
  -- scope that `locateHit` asks for, on the way to the same path, a longer one.
  pub panel_locate_progress :
      (next : Str)
      → locate_hit (panel_merge_code_map g map) path ≡ expand next
      → length scope < length next
  panel_locate_progress next e =
      elim (subst (Lands merged path) e (locate_hit-Lands merged path)).1 [
        | inl (m, deep, shut, same) ↦ rw (← same) (longer m deep shut)
        | inr far ↦
            absurd (All-In (λ n. is_ancestor_path n.path path ≢ true) _ far.0 here above_new)
      ]
