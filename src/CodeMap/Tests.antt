-- ===== src/CodeMap/Tests.antt =====
-- The code map on a small repository, after web/src/lib/codemap.test.ts.
use mcp_project_server.Prelude.{◌≡◌, refl, false, some, [], ◌∷◌, arith}
use mcp_project_server.Js.Str.{codes, str_eq}
use mcp_project_server.Js.Set.{add, has}
use mcp_project_server.Js.Map.{get, put, values, update_all}
use mcp_project_server.Api.Types.{CodeMap}
use mcp_project_server.CodeMap.Graph.{MergedNode, empty_graph, seed, merge_code_map}
use mcp_project_server.CodeMap.Samples.{services, lib, import, top, subtree, graph}
use mcp_project_server.CodeMap.Invariant.{
  IsWellFormed, merge_code_map-IsWellFormed, empty_graph-IsWellFormed,
}
use mcp_project_server.CodeMap.Merge.{IsSubtree, IsSameNode, merge_keeps_real}

top_is_graph : merge_code_map empty_graph top ≡ graph
unfolding merge_code_map seed get put str_eq values update_all add has
top_is_graph = refl

merge_code_map-IsWellFormed_example : IsWellFormed (merge_code_map empty_graph top)
merge_code_map-IsWellFormed_example =
    merge_code_map-IsWellFormed empty_graph top empty_graph-IsWellFormed

subtree-IsSubtree : IsSubtree subtree (codes "services")
subtree-IsSubtree = record { directory = refl; scope_is = refl; nonempty = cc }

lib_found :
    get graph.nodes (codes "dir:lib")
    ≡ some (record { node = record lib { fan_in = 1 }; expanded = false })
unfolding get str_eq
lib_found = refl

services_found :
    get graph.nodes (codes "dir:services")
    ≡ some (record { node = record services { fan_out = 1 }; expanded = false })
unfolding get str_eq
services_found = refl

merge_keeps_real_example :
    (new : MergedNode) × (get (merge_code_map graph subtree).nodes (codes "dir:lib") ≡ some new)
    × IsSameNode (record { node = record lib { fan_in = 1 }; expanded = false }) new
merge_keeps_real_example =
    merge_keeps_real graph subtree (codes "services") subtree-IsSubtree (codes "dir:lib") _
      lib_found refl (ground arith) (ground arith)

-- A response with an edge at the aggregate.
abbrev at_services : CodeMap
at_services = record subtree { edges = import (codes "dir:services") (codes "dir:lib") ∷ [] }
