-- ===== src/CodeMap/Invariant.antt =====
-- The invariant of the code graph, and that both versions of `mergeCodeMap` keep it.
use mcp_project_server.Prelude.{
  ◌≡◌, refl, sym, ap, ◌∙◌, if-both, Option, none, some, List, [], ◌∷◌, foldl, arith, Bool-cases,
  Option-cases, inl, inr,
}
use mcp_project_server.Js.Str.{Str, str_eq}
use mcp_project_server.Js.Map.{
  Map, get, put, delete, values, update_all, HasDistinctKeys, Each, put-HasDistinctKeys,
  delete-HasDistinctKeys, update_all-HasDistinctKeys, put-Each, delete-Each, update_all-Each,
}
use mcp_project_server.Api.Types.{CodeMapNode, CodeMapEdge, CodeMap}
use mcp_project_server.CodeMap.Graph.{
  MergedNode, CodeGraph, empty_graph, edge_key, set_fans, recompute_fans, seed_node, put_edge, seed,
  touches, drop_edges, merged_with, merge_node, mark_expanded, merge_tier, aggregate_id,
  drop_aggregate, drop_tier_edges, scope_of, is_file_scope, merge_code_map, panel_merge_code_map,
}
use mcp_project_server.CodeMap.Fans.{HasFans, set_fans-HasFans}

-- A key of the map is its value's own key, and no key stands twice.
pub record IsKeyed {ℓ} {V : Type ℓ} (key : V → Str) (m : Map V) : Type ℓ where
  pub distinct : HasDistinctKeys m
  pub own_key : Each (λ k v. k ≡ key v) m

pub record IsWellFormed (g : CodeGraph) : Type 0 where
  pub nodes : IsKeyed (λ n. n.id) g.nodes
  pub edges : IsKeyed edge_key g.edges
  -- Every node shows the numbers of its distinct neighbours.
  pub fans : Each (λ id n. HasFans (values g.edges) id n) g.nodes

module _ {ℓ} {V : Type ℓ} (key : V → Str) where
  IsKeyed-nil : IsKeyed key []
  IsKeyed-nil = record { distinct = tt; own_key = tt }

  put-IsKeyed : (m : Map V) (v : V) → IsKeyed key m → IsKeyed key (put m (key v) v)
  put-IsKeyed m v h = record {
    distinct = put-HasDistinctKeys m (key v) v h.distinct;
    own_key = put-Each _ m (key v) v refl h.own_key;
  }

  delete-IsKeyed : (m : Map V) (k : Str) → IsKeyed key m → IsKeyed key (delete m k)
  delete-IsKeyed m k h = record {
    distinct = delete-HasDistinctKeys m k h.distinct;
    own_key = delete-Each _ m k h.own_key;
  }

  update_all-IsKeyed :
      (f : Str → V → V) (m : Map V)
      → ((k : Str) (v : V) → key (f k v) ≡ key v)
      → IsKeyed key m
      → IsKeyed key (update_all f m)
  update_all-IsKeyed f m same h = record {
    distinct = update_all-HasDistinctKeys f m h.distinct;
    own_key = update_all-Each _ _ f m (λ k v e. e ∙ sym (same k v)) h.own_key;
  }

abbrev id_of : MergedNode → Str
id_of n = n.id

get-drop_edges :
    (id : Str) (m : Map CodeMapEdge) (k : Str) → get m k ≡ none → get (drop_edges id m) k ≡ none
unfolding get drop_edges
get-drop_edges id [] k h = refl
get-drop_edges id ((j, e) ∷ m) k h = ground (arith, get-drop_edges id m k)

drop_edges-IsKeyed :
    (id : Str) (m : Map CodeMapEdge) → IsKeyed edge_key m → IsKeyed edge_key (drop_edges id m)
unfolding drop_edges
drop_edges-IsKeyed id [] h = h
drop_edges-IsKeyed id ((j, e) ∷ m) h =
    let rest =
      drop_edges-IsKeyed id m (record { distinct = h.distinct.1; own_key = h.own_key.1 }) in
    elim (Bool-cases (touches id e)) [
      | inl gone ↦ rw gone rest
      | inr kept ↦ rw kept (record {
        distinct = (get-drop_edges id m j h.distinct.0, rest.distinct);
        own_key = (h.own_key.0, rest.own_key);
      })
    ]

foldl-put_edge-IsKeyed :
    (es : List CodeMapEdge) (m : Map CodeMapEdge)
    → IsKeyed edge_key m
    → IsKeyed edge_key (foldl put_edge m es)
unfolding put_edge
foldl-put_edge-IsKeyed [] m h = h
foldl-put_edge-IsKeyed (e ∷ es) m h =
    foldl-put_edge-IsKeyed es (put_edge m e) (put-IsKeyed edge_key m e h)

foldl-seed_node-IsKeyed :
    (ns : List CodeMapNode) (m : Map MergedNode)
    → IsKeyed id_of m
    → IsKeyed id_of (foldl seed_node m ns)
unfolding seed_node
foldl-seed_node-IsKeyed [] m h = h
foldl-seed_node-IsKeyed (n ∷ ns) m h =
    foldl-seed_node-IsKeyed ns (seed_node m n) (put-IsKeyed id_of m _ h)

-- What is stored for a node of the response has that node's id.
pub merged_with-id :
    (o : Option MergedNode) (n : CodeMapNode) (r : MergedNode)
    → merged_with o n ≡ some r
    → r.node ≡ n
unfolding merged_with
merged_with-id none n r e = ground arith
merged_with-id (some old) n r e = ground arith

merge_node-IsKeyed :
    (m : Map MergedNode) (n : CodeMapNode) → IsKeyed id_of m → IsKeyed id_of (merge_node m n)
unfolding merge_node
merge_node-IsKeyed m n h = elim (Option-cases (merged_with (get m n.id) n)) [
  | inl stub ↦ rw stub h
  | inr (r, real) ↦
      rw (real, ← ap (λ (x : CodeMapNode). x.id) (merged_with-id (get m n.id) n r real))
        (put-IsKeyed id_of m r h)
]

foldl-merge_node-IsKeyed :
    (ns : List CodeMapNode) (m : Map MergedNode)
    → IsKeyed id_of m
    → IsKeyed id_of (foldl merge_node m ns)
foldl-merge_node-IsKeyed [] m h = h
foldl-merge_node-IsKeyed (n ∷ ns) m h =
    foldl-merge_node-IsKeyed ns (merge_node m n) (merge_node-IsKeyed m n h)

-- Whatever the fans were, they are exact after `recomputeFans`.
recompute_fans-IsWellFormed :
    (g : CodeGraph)
    → IsKeyed id_of g.nodes
    → IsKeyed edge_key g.edges
    → IsWellFormed (recompute_fans g)
unfolding recompute_fans
recompute_fans-IsWellFormed g nodes edges = record {
  nodes = unfold set_fans in update_all-IsKeyed id_of _ g.nodes (λ k v. refl) nodes;
  edges = edges;
  fans =
      update_all-Each _ _ _ g.nodes (λ k v _. set_fans-HasFans (values g.edges) k v) nodes.own_key;
}

id-mark_expanded : (scope k : Str) (n : MergedNode) → id_of (mark_expanded scope k n) ≡ n.id
unfolding mark_expanded
id-mark_expanded scope k n = ground arith

seed-IsWellFormed : (map : CodeMap) → IsWellFormed (seed map)
unfolding seed
seed-IsWellFormed map =
    recompute_fans-IsWellFormed _ (foldl-seed_node-IsKeyed map.nodes [] (IsKeyed-nil id_of))
      (foldl-put_edge-IsKeyed map.edges [] (IsKeyed-nil edge_key))

merge_tier-IsWellFormed :
    (scope : Str) (g : CodeGraph) (map : CodeMap)
    → IsKeyed id_of g.nodes
    → IsKeyed edge_key g.edges
    → IsWellFormed (merge_tier scope g map)
unfolding merge_tier
merge_tier-IsWellFormed scope g map nodes edges =
    recompute_fans-IsWellFormed _
      (update_all-IsKeyed id_of (mark_expanded scope) _ (id-mark_expanded scope)
        (foldl-merge_node-IsKeyed map.nodes g.nodes nodes))
      (foldl-put_edge-IsKeyed map.edges g.edges edges)

-- Merging any response into a well-formed graph gives a well-formed graph: nodes and edges stand
-- once, under their own keys, and every node's fan-in and fan-out are the numbers of its distinct
-- neighbours in the merged edge set.
pub merge_code_map-IsWellFormed :
    (g : CodeGraph) (map : CodeMap) → IsWellFormed g → IsWellFormed (merge_code_map g map)
unfolding merge_code_map drop_aggregate
merge_code_map-IsWellFormed g map h =
    let scope = scope_of map.scope in
    if-both IsWellFormed (is_file_scope map.scope_kind) h (
      if-both IsWellFormed (str_eq scope []) (seed-IsWellFormed map) (
        merge_tier-IsWellFormed scope (drop_aggregate scope g) map
          (delete-IsKeyed id_of g.nodes (aggregate_id scope) h.nodes)
          (drop_edges-IsKeyed (aggregate_id scope) g.edges h.edges)))

-- The control panel's version of the merge, too, makes a well-formed graph of a well-formed graph
-- and any response.
pub panel_merge_code_map-IsWellFormed :
    (g : CodeGraph) (map : CodeMap) → IsWellFormed g → IsWellFormed (panel_merge_code_map g map)
unfolding panel_merge_code_map drop_tier_edges
panel_merge_code_map-IsWellFormed g map h =
    let scope = scope_of map.scope in
    if-both IsWellFormed (is_file_scope map.scope_kind) h (
      if-both IsWellFormed (str_eq scope []) (seed-IsWellFormed map) (
        merge_tier-IsWellFormed scope (drop_tier_edges scope g) map h.nodes
          (drop_edges-IsKeyed (aggregate_id scope) g.edges h.edges)))

pub empty_graph-IsWellFormed : IsWellFormed empty_graph
empty_graph-IsWellFormed = record {
  nodes = IsKeyed-nil id_of;
  edges = IsKeyed-nil edge_key;
  fans = tt;
}
