-- ===== src/CodeMap/Tree/Tests.antt =====
-- The tree on a small graph.
use mcp_project_server.CodeMap.Locate.{settle, deepest, is_ancestor_path}
use mcp_project_server.Prelude.{◌≡◌, ◌↔◌, refl, true, false, [], ◌∷◌, In}
use mcp_project_server.Js.Str.{codes, str_eq, starts_with}
use mcp_project_server.Js.Map.{values, get}
use mcp_project_server.Js.Sort.{code_order}
use mcp_project_server.Api.Types.{CodeMapNode}
use mcp_project_server.CodeMap.Graph.{MergedNode, CodeGraph, empty_graph}
use mcp_project_server.CodeMap.Samples.{services, lib_stub, billing}
use mcp_project_server.CodeMap.Tree.{children, root_nodes, select_hit}
use mcp_project_server.CodeMap.Tree.Listed.{IsChild, children_iff}

abbrev shut : CodeMapNode → MergedNode
shut n = record { node = n; expanded = false }

abbrev graph : CodeGraph
graph = record empty_graph {
  nodes =
      (codes "dir:services", record { node = services; expanded = true })
      ∷ (codes "dir:lib", shut lib_stub)
      ∷ (codes "dir:services/billing", shut billing)
      ∷ [];
}

children_iff_example :
    In (shut billing) (children code_order graph (shut services))
    ↔ (In (shut billing) (values graph.nodes) × IsChild (shut services) (shut billing))
children_iff_example = children_iff code_order graph (shut services) (shut billing)

listed : children code_order graph (shut services) ≡ shut billing ∷ []
unfolding children values
listed = refl

roots : root_nodes code_order graph ≡ record { node = services; expanded = true } ∷ []
unfolding root_nodes values
roots = refl

hit : select_hit graph (codes "lib/a.ts") ≡ codes "lib/a.ts"
unfolding select_hit get str_eq settle deepest values is_ancestor_path starts_with
hit = refl
