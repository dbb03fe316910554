-- ===== src/CodeMap/Graph.antt =====
-- The merged node and edge model of web/src/lib/codemap.ts. The graph's maps are association lists
-- in the order of insertion; `cloneGraph` has no counterpart, since values are not shared.
use mcp_project_server.Prelude.{
  Bool, true, false, not, ◌&&◌, ◌||◌, Option, none, some, List, [], ◌∷◌, ◌++◌, foldl, length,
  if◌then◌else◌,
}
use mcp_project_server.Js.Str.{Str, codes, str_eq, starts_with}
use mcp_project_server.Js.Set.{add}
use mcp_project_server.Js.Map.{Map, get, put, values, update_all, delete}
use mcp_project_server.Api.Types.{CodeMapNode, CodeMapNodeKind, CodeMapEdge, CodeMap, ScopeKind}

pub record MergedNode : Type 0 where
  pub node : CodeMapNode
  pub open node use *
  pub expanded : Bool

pub record CodeGraph : Type 0 where
  pub nodes : Map MergedNode
  pub edges : Map CodeMapEdge
  pub loaded_scopes : List Str

abbrev pub empty_graph : CodeGraph
empty_graph = record { nodes = []; edges = []; loaded_scopes = [] }

abbrev pub space : Str
space = codes " "

unfoldable pub edge_key : CodeMapEdge → Str
edge_key e = e.source ++ (space ++ (e.target ++ (space ++ e.kind)))

-- `inN` and `outN` of `recomputeFans`
pub record Fans : Type 0 where
  pub ins : Map (List Str)
  pub outs : Map (List Str)

-- `map.get(key)`, or an empty set
abbrev pub members : Option (List Str) → List Str
members none = []
members (some s) = s

-- `getOrCreate(map, key, () => new Set()).add(value)`
unfoldable pub add_to : Map (List Str) → Str → Str → Map (List Str)
add_to m key value = put m key (add (members (get m key)) value)

unfoldable pub count_edge : Fans → CodeMapEdge → Fans
unfolding add_to
count_edge f e =
    if str_eq e.source e.target
    then f
    else record { ins = add_to f.ins e.target e.source; outs = add_to f.outs e.source e.target }

unfoldable pub count_edges : List CodeMapEdge → Fans
unfolding count_edge
count_edges es = foldl count_edge (record { ins = []; outs = [] }) es

unfoldable pub set_fans : Fans → Str → MergedNode → MergedNode
set_fans f id n = record n {
  node = record n.node {
    fan_in = length (members (get f.ins id));
    fan_out = length (members (get f.outs id));
  };
}

unfoldable pub recompute_fans : CodeGraph → CodeGraph
unfolding count_edges set_fans
recompute_fans g = record g { nodes = update_all (set_fans (count_edges (values g.edges))) g.nodes }

-- The top tier: every node of the response, collapsed.
unfoldable pub seed_node : Map MergedNode → CodeMapNode → Map MergedNode
seed_node nodes n = put nodes n.id (record { node = n; expanded = false })

unfoldable pub put_edge : Map CodeMapEdge → CodeMapEdge → Map CodeMapEdge
unfolding edge_key
put_edge edges e = put edges (edge_key e) e

unfoldable pub seed : CodeMap → CodeGraph
unfolding seed_node put_edge recompute_fans
seed map = recompute_fans (record {
  nodes = foldl seed_node [] map.nodes;
  edges = foldl put_edge [] map.edges;
  loaded_scopes = add [] [];
})

abbrev pub touches : Str → CodeMapEdge → Bool
touches id e = str_eq e.source id || str_eq e.target id

-- The loop that deletes the edges at the aggregate.
unfoldable pub drop_edges : Str → Map CodeMapEdge → Map CodeMapEdge
drop_edges id [] = []
drop_edges id ((k, e) ∷ m) =
    let rest = drop_edges id m in if touches id e then rest else (k, e) ∷ rest

-- A node of a subtree response, where the graph holds `existing` under its id.
unfoldable pub merged_with : Option MergedNode → CodeMapNode → Option MergedNode
merged_with none n = some (record { node = n; expanded = false })
merged_with (some old) n =
    if n.outside_scope && not old.outside_scope
    then none
    else some (record { node = n; expanded = old.expanded })

abbrev pub put_some : Map MergedNode → Str → Option MergedNode → Map MergedNode
put_some nodes id none = nodes
put_some nodes id (some n) = put nodes id n

unfoldable pub merge_node : Map MergedNode → CodeMapNode → Map MergedNode
unfolding merged_with
merge_node nodes n = put_some nodes n.id (merged_with (get nodes n.id) n)

abbrev pub is_directory : CodeMapNodeKind → Bool
is_directory CodeMapNodeKind.directory = true
is_directory _ = false

unfoldable pub mark_expanded : Str → Str → MergedNode → MergedNode
mark_expanded scope id n =
    if (str_eq n.path scope || starts_with scope (n.path ++ codes "/")) && is_directory n.kind
    then record n { expanded = true }
    else n

-- The part of `mergeCodeMap` after the aggregate is dropped.
unfoldable pub merge_tier : Str → CodeGraph → CodeMap → CodeGraph
unfolding merge_node put_edge mark_expanded recompute_fans
merge_tier scope g map = recompute_fans (record {
  nodes = update_all (mark_expanded scope) (foldl merge_node g.nodes map.nodes);
  edges = foldl put_edge g.edges map.edges;
  loaded_scopes = add g.loaded_scopes scope;
})

abbrev pub aggregate_id : Str → Str
aggregate_id scope = codes "dir:" ++ scope

unfoldable pub drop_aggregate : Str → CodeGraph → CodeGraph
unfolding drop_edges
drop_aggregate scope g = record g {
  nodes = delete g.nodes (aggregate_id scope);
  edges = drop_edges (aggregate_id scope) g.edges;
}

abbrev pub scope_of : Option Str → Str
scope_of none = []
scope_of (some s) = s

abbrev pub is_file_scope : ScopeKind → Bool
is_file_scope ScopeKind.file = true
is_file_scope ScopeKind.directory = false

unfoldable pub merge_code_map : CodeGraph → CodeMap → CodeGraph
merge_code_map g map =
    let scope = scope_of map.scope in
    if is_file_scope map.scope_kind
    then g
    else if str_eq scope []
    then seed map
    else merge_tier scope (drop_aggregate scope g) map

-- The control panel's copy keeps the node of the scope and drops only its edges.
unfoldable pub drop_tier_edges : Str → CodeGraph → CodeGraph
unfolding drop_edges
drop_tier_edges scope g = record g { edges = drop_edges (aggregate_id scope) g.edges }

unfoldable pub panel_merge_code_map : CodeGraph → CodeMap → CodeGraph
panel_merge_code_map g map =
    let scope = scope_of map.scope in
    if is_file_scope map.scope_kind
    then g
    else if str_eq scope []
    then seed map
    else merge_tier scope (drop_tier_edges scope g) map
