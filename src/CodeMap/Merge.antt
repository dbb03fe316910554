-- ===== src/CodeMap/Merge.antt =====
-- What a merge leaves of the nodes that were there, in the two versions of `mergeCodeMap`.
use mcp_project_server.Prelude.{
  ◌≡◌, refl, ap, ◌∙◌, ◌≢◌, ◌⊎◌, true, false, Option, none, some, List, [], ◌∷◌, foldl, All, In,
  All-map, All-In_self, All-In, subst, arith, Bool-cases, inl, inr,
}
use mcp_project_server.Js.Str.{Str, str_eq, str_eq_iff, str_eq_refl}
use mcp_project_server.Js.Map.{
  Map, get, values, delete, Each, put-Each, Each-map, Each-values, get-put, get-delete,
  get-update_all,
}
use mcp_project_server.Api.Types.{CodeMapNode, CodeMapEdge, CodeMap, ScopeKind}
use mcp_project_server.CodeMap.Graph.{
  MergedNode, CodeGraph, count_edges, set_fans, put_edge, edge_key, touches, merged_with, put_some,
  merge_node, mark_expanded, merge_tier, aggregate_id, drop_aggregate, drop_tier_edges, drop_edges,
  scope_of, merge_code_map, panel_merge_code_map,
}

-- The response of the server for a directory.
pub record IsSubtree (map : CodeMap) (scope : Str) : Type 0 where
  pub directory : map.scope_kind ≡ ScopeKind.directory
  pub scope_is : scope_of map.scope ≡ scope
  pub nonempty : scope ≢ []

-- The response's nodes of this id are boundary stubs.
abbrev pub OnlyStubs : Str → List CodeMapNode → Type 0
OnlyStubs id ns = All (λ n. n.id ≡ id → n.outside_scope ≡ true) ns

-- The same node, but that its fans are counted anew and that it may have become expanded.
pub record IsSameNode (old new : MergedNode) : Type 0 where
  pub node : new.node ≡ record old.node { fan_in = new.fan_in; fan_out = new.fan_out }
  pub expanded : old.expanded ≡ true → new.expanded ≡ true

get-put_some_ne :
    (m : Map MergedNode) (k : Str) (o : Option MergedNode) (id : Str)
    → k ≢ id
    → get (put_some m k o) id ≡ get m id
get-put_some_ne m k none id h = refl
get-put_some_ne m k (some n) id h = ground (arith, get-put m k id n, str_eq_iff k id)

merged_with_stub :
    (old : MergedNode) (n : CodeMapNode)
    → n.outside_scope ≡ true
    → old.outside_scope ≡ false
    → merged_with (some old) n ≡ none
unfolding merged_with
merged_with_stub old n stub real = rw (stub, real)

get-merge_node_ne :
    (m : Map MergedNode) (n : CodeMapNode) (id : Str)
    → n.id ≢ id
    → get (merge_node m n) id ≡ get m id
unfolding merge_node
get-merge_node_ne m n id h = get-put_some_ne m n.id _ id h

get-merge_node_stub :
    (m : Map MergedNode) (n : CodeMapNode) (id : Str) (old : MergedNode)
    → get m id ≡ some old
    → old.outside_scope ≡ false
    → (n.id ≡ id → n.outside_scope ≡ true)
    → get (merge_node m n) id ≡ some old
unfolding merge_node
get-merge_node_stub m n id old found real stub = elim (Bool-cases (str_eq n.id id)) [
  | inl same ↦
      let e = (str_eq_iff n.id id).0 same in
      let kept : merged_with (get m n.id) n ≡ none =
        ap (λ (k : Str). merged_with (get m k) n) e
        ∙ (ap (λ (o : Option MergedNode). merged_with o n) found
            ∙ merged_with_stub old n (stub e) real) in
      ap (λ (o : Option MergedNode). get (put_some m n.id o) id) kept ∙ found
  | inr other ↦ get-merge_node_ne m n id (ground (arith, str_eq_iff n.id id)) ∙ found
]

get-foldl-merge_node :
    (ns : List CodeMapNode) (m : Map MergedNode) (id : Str) (old : MergedNode)
    → get m id ≡ some old
    → old.outside_scope ≡ false
    → OnlyStubs id ns
    → get (foldl merge_node m ns) id ≡ some old
get-foldl-merge_node [] m id old found real stubs = found
get-foldl-merge_node (n ∷ ns) m id old found real stubs =
    get-foldl-merge_node ns (merge_node m n) id old
      (get-merge_node_stub m n id old found real stubs.0) real stubs.1

pub get-foldl-merge_node_ne :
    (ns : List CodeMapNode) (m : Map MergedNode) (id : Str)
    → All (λ n. n.id ≢ id) ns
    → get (foldl merge_node m ns) id ≡ get m id
get-foldl-merge_node_ne [] m id h = refl
get-foldl-merge_node_ne (n ∷ ns) m id h =
    get-foldl-merge_node_ne ns (merge_node m n) id h.1 ∙ get-merge_node_ne m n id h.0

-- The fans and the expansion marks that a merge leaves on a node.
abbrev finish : Str → CodeGraph → CodeMap → Str → MergedNode → MergedNode
finish scope g map id n =
    set_fans (count_edges (values (foldl put_edge g.edges map.edges))) id (mark_expanded scope id n)

get-merge_tier :
    (scope : Str) (g : CodeGraph) (map : CodeMap) (id : Str) (old : MergedNode)
    → get (foldl merge_node g.nodes map.nodes) id ≡ some old
    → get (merge_tier scope g map).nodes id ≡ some (finish scope g map id old)
unfolding merge_tier
get-merge_tier scope g map id old e = rw (get-update_all, get-update_all, e) refl

pub node-mark_expanded :
    (scope id : Str) (n : MergedNode) → (mark_expanded scope id n).node ≡ n.node
unfolding mark_expanded
node-mark_expanded scope id n = ground arith

-- A directory node at the scope or above it is marked, and no mark is taken away.
mark_expanded_keeps :
    (scope id : Str) (n : MergedNode)
    → n.expanded ≡ true
    → (mark_expanded scope id n).expanded ≡ true
unfolding mark_expanded
mark_expanded_keeps scope id n h = ground arith

finish-IsSameNode :
    (scope : Str) (g : CodeGraph) (map : CodeMap) (id : Str) (old : MergedNode)
    → IsSameNode old (finish scope g map id old)
unfolding set_fans
finish-IsSameNode scope g map id old = record {
  node =
      ap
        (λ (x : CodeMapNode). record x {
          fan_in = (finish scope g map id old).fan_in;
          fan_out = (finish scope g map id old).fan_out;
        })
        (node-mark_expanded scope id old);
  expanded = mark_expanded_keeps scope id old;
}

-- The branch of a subtree response.
pub merge_code_map_subtree :
    (g : CodeGraph) (map : CodeMap) (scope : Str)
    → IsSubtree map scope
    → merge_code_map g map ≡ merge_tier scope (drop_aggregate scope g) map
unfolding merge_code_map
merge_code_map_subtree g map scope h =
    let other : str_eq scope [] ≡ false = ground (arith, str_eq_iff scope [], h.nonempty) in
    rw (h.directory, h.scope_is, other) refl

pub panel_merge_code_map_subtree :
    (g : CodeGraph) (map : CodeMap) (scope : Str)
    → IsSubtree map scope
    → panel_merge_code_map g map ≡ merge_tier scope (drop_tier_edges scope g) map
unfolding panel_merge_code_map
panel_merge_code_map_subtree g map scope h =
    let other : str_eq scope [] ≡ false = ground (arith, str_eq_iff scope [], h.nonempty) in
    rw (h.directory, h.scope_is, other) refl

module _ (g : CodeGraph) (map : CodeMap) (scope : Str) (sub : IsSubtree map scope) (id : Str)
    (old : MergedNode) (found : get g.nodes id ≡ some old) (real : old.outside_scope ≡ false)
    (stubs : OnlyStubs id map.nodes) where
  get-merge_tier_real :
      (h : CodeGraph)
      → get h.nodes id ≡ some old
      → (new : MergedNode) × (get (merge_tier scope h map).nodes id ≡ some new) × IsSameNode old new
  get-merge_tier_real h there = (
    finish scope h map id old,
    get-merge_tier scope h map id old
        (get-foldl-merge_node map.nodes h.nodes id old there real stubs),
    finish-IsSameNode scope h map id old,
  )

  -- A node of the graph that is no boundary stub is still there, unchanged but for its fans and a
  -- new expansion mark, after a subtree response whose nodes of that id are stubs, unless it is
  -- the aggregate of the response's scope.
  pub merge_keeps_real :
      id ≢ aggregate_id scope
      → (new : MergedNode) × (get (merge_code_map g map).nodes id ≡ some new) × IsSameNode old new
  unfolding drop_aggregate
  merge_keeps_real other = rw (merge_code_map_subtree g map scope sub) (
      get-merge_tier_real (drop_aggregate scope g) (
        ground
          (arith, get-delete g.nodes (aggregate_id scope) id, str_eq_iff (aggregate_id scope) id)))

  -- In the control panel's version a node that is no boundary stub is still there, unchanged but
  -- for its fans and a new expansion mark, after a subtree response whose nodes of that id are
  -- stubs, also if it is the aggregate of the response's scope.
  pub panel_merge_keeps_real :
      (new : MergedNode) × (get (panel_merge_code_map g map).nodes id ≡ some new)
      × IsSameNode old new
  unfolding drop_tier_edges
  panel_merge_keeps_real =
      rw (panel_merge_code_map_subtree g map scope sub)
        (get-merge_tier_real (drop_tier_edges scope g) found)

Each-drop_edges :
    (id : Str) (m : Map CodeMapEdge) → Each (λ k e. touches id e ≢ true) (drop_edges id m)
unfolding drop_edges
Each-drop_edges id [] = tt
Each-drop_edges id ((k, e) ∷ m) = ground (arith, Each-drop_edges id m)

foldl-put_edge-Each :
    (P : Str → CodeMapEdge → Type 0) (es : List CodeMapEdge) (m : Map CodeMapEdge)
    → All (λ e. P (edge_key e) e) es
    → Each P m
    → Each P (foldl put_edge m es)
unfolding put_edge
foldl-put_edge-Each P [] m new h = h
foldl-put_edge-Each P (e ∷ es) m new h =
    foldl-put_edge-Each P es (put_edge m e) new.1 (put-Each P m (edge_key e) e new.0 h)

module _ (g : CodeGraph) (map : CodeMap) (scope : Str) (sub : IsSubtree map scope) where
  abbrev FromResponse : CodeMapEdge → Type 0
  FromResponse e = touches (aggregate_id scope) e ≡ true → In e map.edges

  edges-merge_tier :
      (h : CodeGraph)
      → h.edges ≡ drop_edges (aggregate_id scope) g.edges
      → All FromResponse (values (merge_tier scope h map).edges)
  unfolding merge_tier
  edges-merge_tier h same =
      Each-values (λ k e. FromResponse e) FromResponse _ (λ k e p. p)
        (foldl-put_edge-Each (λ k e. FromResponse e) map.edges h.edges
          (All-map _ _ map.edges (λ e m t. m) (All-In_self map.edges))
          (rw same (
            Each-map _ _ (drop_edges (aggregate_id scope) g.edges) (λ k e n t. absurd (n t))
              (Each-drop_edges (aggregate_id scope) g.edges))))

  pub get-merge_tier-none :
      (h : CodeGraph) (id : Str)
      → get (foldl merge_node h.nodes map.nodes) id ≡ none
      → get (merge_tier scope h map).nodes id ≡ none
  unfolding merge_tier
  get-merge_tier-none h id e = rw (get-update_all, get-update_all, e) refl

  -- After a subtree response that does not name the aggregate of its scope, the aggregate is gone.
  pub merge_drops_aggregate :
      All (λ n. n.id ≢ aggregate_id scope) map.nodes
      → get (merge_code_map g map).nodes (aggregate_id scope) ≡ none
  unfolding drop_aggregate
  merge_drops_aggregate absent = rw (merge_code_map_subtree g map scope sub) (
      get-merge_tier-none (drop_aggregate scope g) (aggregate_id scope) (
        get-foldl-merge_node_ne map.nodes (delete g.nodes (aggregate_id scope)) (aggregate_id scope)
          absent
        ∙ ground (
          arith,
          get-delete g.nodes (aggregate_id scope) (aggregate_id scope),
          str_eq_refl (aggregate_id scope),
        )))

  -- After a subtree response, in either version, every edge at the aggregate is one of the
  -- response's own.
  pub merge_drops_edges :
      (e : CodeMapEdge)
      → touches (aggregate_id scope) e ≡ true
      → In e (values (merge_code_map g map).edges)
        ⊎ In e (values (panel_merge_code_map g map).edges)
      → In e map.edges
  unfolding drop_aggregate drop_tier_edges
  merge_drops_edges e t (inl m) =
      All-In FromResponse _ (edges-merge_tier (drop_aggregate scope g) refl)
        (subst (λ (h : CodeGraph). In e (values h.edges)) (merge_code_map_subtree g map scope sub)
          m)
        t
  merge_drops_edges e t (inr m) =
      All-In FromResponse _ (edges-merge_tier (drop_tier_edges scope g) refl)
        (subst (λ (h : CodeGraph). In e (values h.edges))
          (panel_merge_code_map_subtree g map scope sub) m)
        t
