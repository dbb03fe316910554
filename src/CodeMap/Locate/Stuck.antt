-- ===== src/CodeMap/Locate/Stuck.antt =====
-- In web/src the merge of a scope removes its directory, so the loop of `locate` can ask for the
-- same scope until its rounds are over.
use mcp_project_server.Prelude.{
  ℕ, zero, suc, ◌≡◌, refl, sym, ap, ◌∙◌, ◌≢◌, inl, inr, true, false, none, List, [], ◌∷◌, foldl,
  All, All-In, arith, subst, Option-cases,
}
use mcp_project_server.Js.Str.{Str, str_eq, str_eq_iff}
use mcp_project_server.Js.Map.{
  Map, get, values, delete, Each, Each-map, Each-values, put-Each, delete-Each_ne, update_all-Each,
  get-delete,
}
use mcp_project_server.Api.Types.{CodeMap, CodeMapNode}
use mcp_project_server.CodeMap.Graph.{
  MergedNode, CodeGraph, merged_with, merge_node, mark_expanded, merge_tier, aggregate_id,
  drop_aggregate, merge_code_map,
}
use mcp_project_server.CodeMap.Invariant.{merged_with-id}
use mcp_project_server.CodeMap.Merge.{
  IsSubtree, merge_code_map_subtree, get-foldl-merge_node_ne, get-merge_tier-none,
  node-mark_expanded,
}
use mcp_project_server.CodeMap.Locate.{
  expand, top_segment, is_ancestor_path, deepest, settle, file_id, locate_hit, gave_up,
  locate_rounds, locate,
}
use mcp_project_server.CodeMap.Locate.Deepest.{deepest_sound}
use mcp_project_server.CodeMap.Locate.Landing.{HasNoAncestor}

abbrev Misses : Str → Str → MergedNode → Type 0
Misses path k n = is_ancestor_path n.path path ≢ true

-- No node of the graph leads to the file, save perhaps the scope's own directory.
pub record IsLost (g : CodeGraph) (scope path : Str) : Type 0 where
  pub absent : get g.nodes (file_id path) ≡ none
  pub only_scope :
      Each (λ k n. k ≢ aggregate_id scope → is_ancestor_path n.path path ≢ true) g.nodes

deepest-eq-none :
    (path : Str) (nodes : List MergedNode) → HasNoAncestor path nodes → deepest path nodes ≡ none
deepest-eq-none path nodes h = elim (Option-cases (deepest path nodes)) [
  | inl e ↦ e
  | inr (n, e) ↦
      let deep = deepest_sound path nodes n e in
      absurd (All-In (λ m. is_ancestor_path m.path path ≢ true) nodes h deep.among deep.above)
]

locate_hit_far :
    (g : CodeGraph) (path : Str)
    → get g.nodes (file_id path) ≡ none
    → HasNoAncestor path (values g.nodes)
    → top_segment path ≢ []
    → top_segment path ≢ path
    → locate_hit g path ≡ expand (top_segment path)
unfolding locate_hit settle
locate_hit_far g path absent far nonempty part =
    let a : str_eq (top_segment path) [] ≡ false =
      ground (arith, str_eq_iff (top_segment path) []) in
    let b : str_eq (top_segment path) path ≡ false =
      ground (arith, str_eq_iff (top_segment path) path) in
    rw (absent, deepest-eq-none path (values g.nodes) far, a, b) refl

merge_node-Misses :
    (path : Str) (m : Map MergedNode) (n : CodeMapNode)
    → is_ancestor_path n.path path ≢ true
    → Each (Misses path) m
    → Each (Misses path) (merge_node m n)
unfolding merge_node
merge_node-Misses path m n miss h = elim (Option-cases (merged_with (get m n.id) n)) [
  | inl stub ↦ rw stub h
  | inr (r, real) ↦ rw real (
      put-Each (Misses path) m n.id r
        (subst (λ (x : CodeMapNode). is_ancestor_path x.path path ≢ true)
          (sym (merged_with-id (get m n.id) n r real)) miss)
        h)
]

foldl-merge_node-Misses :
    (path : Str) (ns : List CodeMapNode) (m : Map MergedNode)
    → All (λ n. is_ancestor_path n.path path ≢ true) ns
    → Each (Misses path) m
    → Each (Misses path) (foldl merge_node m ns)
foldl-merge_node-Misses path [] m miss h = h
foldl-merge_node-Misses path (n ∷ ns) m miss h =
    foldl-merge_node-Misses path ns (merge_node m n) miss.1 (merge_node-Misses path m n miss.0 h)

mark_expanded-Misses :
    (path scope k : Str) (n : MergedNode)
    → Misses path k n
    → Misses path k (mark_expanded scope k n)
mark_expanded-Misses path scope k n miss =
    subst (λ (x : CodeMapNode). is_ancestor_path x.path path ≢ true)
      (sym (node-mark_expanded scope k n)) miss

merge_tier-Misses :
    (path scope : Str) (g : CodeGraph) (map : CodeMap)
    → Each (Misses path) (foldl merge_node g.nodes map.nodes)
    → Each (Misses path) (merge_tier scope g map).nodes
unfolding merge_tier
merge_tier-Misses path scope g map h =
    update_all-Each (Misses path) (Misses path) _ _ (λ k n p. p)
      (update_all-Each (Misses path) (Misses path) (mark_expanded scope) _
        (mark_expanded-Misses path scope) h)

-- The graph after the response for the scope was merged so many times.
abbrev pub asked : (fetch : Str → CodeMap) (scope : Str) → ℕ → CodeGraph → CodeGraph
asked fetch scope zero g = g
asked fetch scope (suc n) g = asked fetch scope n (merge_code_map g (fetch scope))

module _ (fetch : Str → CodeMap) (path scope : Str) (sub : IsSubtree (fetch scope) scope)
    (top : top_segment path ≡ scope) (part : scope ≢ path)
    (absent : All (λ n. n.id ≢ file_id path) (fetch scope).nodes)
    (far : All (λ n. is_ancestor_path n.path path ≢ true) (fetch scope).nodes) where
  merge-absent :
      (g : CodeGraph)
      → IsLost g scope path
      → get (merge_code_map g (fetch scope)).nodes (file_id path) ≡ none
  unfolding drop_aggregate
  merge-absent g lost = rw (merge_code_map_subtree g (fetch scope) scope sub) (
      get-merge_tier-none g (fetch scope) scope sub (drop_aggregate scope g) (file_id path) (
        get-foldl-merge_node_ne (fetch scope).nodes (delete g.nodes (aggregate_id scope))
          (file_id path) absent
        ∙ ground (arith, get-delete g.nodes (aggregate_id scope) (file_id path), lost.absent)))

  merge-Misses :
      (g : CodeGraph)
      → IsLost g scope path
      → Each (Misses path) (merge_code_map g (fetch scope)).nodes
  unfolding drop_aggregate
  merge-Misses g lost = rw (merge_code_map_subtree g (fetch scope) scope sub) (
      merge_tier-Misses path scope _ (fetch scope) (
        foldl-merge_node-Misses path (fetch scope).nodes _ far (
          Each-map _ _ _ (λ k n h. h.1 h.0)
            (delete-Each_ne _ g.nodes (aggregate_id scope) lost.only_scope))))

  merge-IsLost :
      (g : CodeGraph) → IsLost g scope path → IsLost (merge_code_map g (fetch scope)) scope path
  merge-IsLost g lost = record {
    absent = merge-absent g lost;
    only_scope = Each-map _ _ _ (λ k n miss _. miss) (merge-Misses g lost);
  }

  locate_hit-again :
      (g : CodeGraph)
      → IsLost g scope path
      → locate_hit (merge_code_map g (fetch scope)) path ≡ expand scope
  locate_hit-again g lost =
      locate_hit_far _ path (merge-absent g lost)
        (Each-values (Misses path) _ _ (λ k n p. p) (merge-Misses g lost))
        (λ e. sub.nonempty (sym top ∙ e)) (λ e. part (sym top ∙ e))
      ∙ ap expand top

  locate_rounds-gave_up :
      (rounds : ℕ) (g : CodeGraph)
      → IsLost g scope path
      → locate_hit g path ≡ expand scope
      → locate_rounds fetch merge_code_map path rounds g ≡ (gave_up, asked fetch scope rounds g)
  unfolding locate_rounds
  locate_rounds-gave_up zero g lost e = refl
  locate_rounds-gave_up (suc rounds) g lost e =
      let ih = locate_rounds-gave_up rounds _ (merge-IsLost g lost) (locate_hit-again g lost) in
      rw (e, locate_rounds) ih

  locate_hit-asked :
      (n : ℕ) (g : CodeGraph)
      → IsLost g scope path
      → locate_hit g path ≡ expand scope
      → locate_hit (asked fetch scope n g) path ≡ expand scope
  locate_hit-asked zero g lost e = e
  locate_hit-asked (suc n) g lost e =
      locate_hit-asked n _ (merge-IsLost g lost) (locate_hit-again g lost)

  -- Suppose that the scope is the first segment of a file's path and not all of it, that its
  -- response is one of a subtree and has neither the file nor a node on or above the path, that the
  -- graph has no node of the file, and none on or above the path but perhaps the scope's own
  -- directory. If locateHit then asks for the scope, it asks for it again however often the
  -- response is merged; `locate` merges it in each of its five rounds, and ends with no node
  -- selected and no message that the file is not in the map.
  pub locate-gave_up :
      (g : CodeGraph)
      → IsLost g scope path
      → locate_hit g path ≡ expand scope
      → ((n : ℕ) → locate_hit (asked fetch scope n g) path ≡ expand scope)
        × (locate fetch merge_code_map path g ≡ (gave_up, asked fetch scope 5 g))
  unfolding locate
  locate-gave_up g lost e = ((λ n. locate_hit-asked n g lost e), locate_rounds-gave_up 5 g lost e)
