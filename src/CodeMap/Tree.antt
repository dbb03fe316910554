-- ===== src/CodeMap/Tree.antt =====
-- The tree of the code map in
-- pcs-control-panel-project/artifacts/pcs-control-panel/src/App.tsx: which nodes stand under a
-- directory (TreeNode) and at the root, and what a click on a node or on a hit of the search
-- selects (CodeMap). `locale_compare` is the sign of `localeCompare`.
pub mod Listed
mod Tests
use mcp_project_server.Prelude.{
  ◌+◌, Bool, true, false, not, ◌&&◌, ◌||◌, Option, none, some, List, [], ◌∷◌, ◌++◌, filter, length,
  drop, if◌then◌else◌,
}
use mcp_project_server.Js.Str.{Str, codes, str_eq, starts_with, includes}
use mcp_project_server.Js.Map.{get, values}
use mcp_project_server.Js.Sort.{Sign, sort}
use mcp_project_server.Api.Types.{CodeMapNodeKind}
use mcp_project_server.CodeMap.Graph.{MergedNode, CodeGraph, is_directory}
use mcp_project_server.CodeMap.Locate.{LocateResult, node, expand, unreachable, locate_hit}

abbrev same_kind : CodeMapNodeKind → CodeMapNodeKind → Bool
same_kind CodeMapNodeKind.directory CodeMapNodeKind.directory = true
same_kind CodeMapNodeKind.file CodeMapNodeKind.file = true
same_kind CodeMapNodeKind.symbol CodeMapNodeKind.symbol = true
same_kind CodeMapNodeKind.external CodeMapNodeKind.external = true
same_kind _ _ = false

-- `text.indexOf('/') === -1`
unfoldable pub has_no_slash : Str → Bool
unfolding includes
has_no_slash text = not (includes text (codes "/"))

-- The test of `children`.
unfoldable pub is_child : MergedNode → MergedNode → Bool
unfolding str_eq starts_with has_no_slash
is_child parent n =
    not (str_eq n.id parent.id)
    && (not n.outside_scope
        && (starts_with n.path (parent.path ++ codes "/")
            && has_no_slash (drop (length parent.path + 1) n.path)))

unfoldable pub is_root : MergedNode → Bool
unfolding has_no_slash
is_root n = not n.outside_scope && has_no_slash n.path

-- Two nodes of different kinds, neither a directory, compare as positive both ways.
unfoldable pub compare_tree : (Str → Str → Sign) → MergedNode → MergedNode → Sign
compare_tree locale_compare a b =
    if same_kind a.kind b.kind
    then locale_compare a.label b.label
    else if is_directory a.kind
    then Sign.negative
    else Sign.positive

unfoldable pub children : (Str → Str → Sign) → CodeGraph → MergedNode → List MergedNode
unfolding is_child compare_tree sort
children locale_compare graph parent =
    sort (compare_tree locale_compare) (filter (is_child parent) (values graph.nodes))

unfoldable pub root_nodes : (Str → Str → Sign) → CodeGraph → List MergedNode
unfolding is_root compare_tree sort
root_nodes locale_compare graph =
    sort (compare_tree locale_compare) (filter is_root (values graph.nodes))

-- `needsFetch`, and whether the query for the node's scope is enabled.
unfoldable pub needs_fetch : MergedNode → Bool
needs_fetch n = is_directory n.kind && (n.has_children && not n.expanded)

unfoldable pub fetch_enabled : (open_ : Bool) → MergedNode → Bool
unfolding needs_fetch
fetch_enabled open_ n = open_ && needs_fetch n

-- A click on a node: whether it is open then, and the path that is selected by it.
unfoldable pub toggle : (open_ : Bool) → MergedNode → Bool × Option Str
toggle open_ n = if is_directory n.kind then (not open_, none) else (open_, some n.path)

abbrev pub path_or : Str → Option MergedNode → Str
path_or path none = path
path_or path (some n) = n.path

-- `selectHit`: the path that is selected.
unfoldable pub select_hit : CodeGraph → Str → Str
unfolding locate_hit
select_hit graph path = elim (locate_hit graph path) [
  | node id ↦ path_or path (get graph.nodes id)
  | expand _ ↦ path
  | unreachable ↦ path
]

-- `graph.nodes.get(`file:${selectedPath}`) ?? null`, where a path is selected.
unfoldable pub selected_node : CodeGraph → Option Str → Option MergedNode
selected_node graph none = none
selected_node graph (some path) =
    if str_eq path [] then none else get graph.nodes (codes "file:" ++ path)
