-- ===== src/CodeMap/Locate.antt =====
-- `locateHit` of web/src/lib/codemap.ts: where the file of a search hit lands on the graph, and
-- the loop of `locate` in web/src/views/CodeMapView.tsx that expands scopes until it lands.
pub mod Paths
pub mod Deepest
pub mod Landing
pub mod Progress
pub mod Stuck
mod Tests
use mcp_project_server.Prelude.{
  ℕ, zero, suc, Bool, true, false, not, ◌&&◌, ◌||◌, Option, none, some, List, [], ◌∷◌, ◌++◌, foldl,
  length, ltb, if◌then◌else◌,
}
use mcp_project_server.Js.Str.{Str, codes, str_eq, starts_with, split}
use mcp_project_server.Js.Map.{get, values}
use mcp_project_server.Api.Types.{CodeMap}
use mcp_project_server.CodeMap.Graph.{MergedNode, CodeGraph, is_directory, merge_code_map}

pub data LocateResult : Type 0 where
  node : Str → LocateResult
  expand : Str → LocateResult
  unreachable : LocateResult

abbrev pub first_or : Str → List Str → Str
first_or path [] = path
first_or path (seg ∷ _) = seg

unfoldable pub top_segment : Str → Str
top_segment path = if str_eq path [] then [] else first_or path (split b'/' path)

unfoldable pub is_ancestor_path : Str → Str → Bool
is_ancestor_path ancestor path =
    not (str_eq ancestor []) && (str_eq ancestor path || starts_with path (ancestor ++ codes "/"))

-- One round of the loop over the nodes: the deepest ancestor so far, the first of its length.
abbrev pub is_deeper : Option MergedNode → MergedNode → Bool
is_deeper none n = true
is_deeper (some best) n = ltb (length best.path) (length n.path)

unfoldable pub deeper : Str → Option MergedNode → MergedNode → Option MergedNode
deeper path best n = if is_ancestor_path n.path path && is_deeper best n then some n else best

unfoldable pub deepest : Str → List MergedNode → Option MergedNode
unfolding deeper
deepest path nodes = foldl (deeper path) none nodes

abbrev pub is_collapsed : MergedNode → Bool
is_collapsed n = is_directory n.kind && (n.has_children && not n.expanded)

-- The source's last test has the same result on both branches.
unfoldable pub settle : Str → Option MergedNode → LocateResult
settle path (some best) = if is_collapsed best then expand best.path else node best.id
settle path none =
    let seg = top_segment path in
    if not (str_eq seg []) && not (str_eq seg path) then expand seg else unreachable

abbrev pub file_id : Str → Str
file_id path = codes "file:" ++ path

abbrev pub or_settle : Option MergedNode → LocateResult → LocateResult
or_settle none r = r
or_settle (some n) r = node n.id

unfoldable pub locate_hit : CodeGraph → Str → LocateResult
locate_hit g path =
    or_settle (get g.nodes (file_id path)) (settle path (deepest path (values g.nodes)))

-- What the loop ends with: a selected node, a message that the file is not in the map, or
-- neither, when its five rounds are over.
pub data Located : Type 0 where
  selected : Str → Located
  not_in_map : Located
  gave_up : Located

-- `fetch` stands for `fetchCodeMapScope`; the graph comes back too, as `setGraph` stores it.
module _ (fetch : Str → CodeMap) (merge : CodeGraph → CodeMap → CodeGraph) (path : Str) where
  unfoldable pub locate_rounds : ℕ → CodeGraph → Located × CodeGraph
  locate_rounds zero g = (gave_up, g)
  locate_rounds (suc rounds) g = elim (locate_hit g path) [
    | node id ↦ (selected id, g)
    | unreachable ↦ (not_in_map, g)
    | expand scope ↦ locate_rounds rounds (merge g (fetch scope))
  ]

  unfoldable pub locate : CodeGraph → Located × CodeGraph
  locate = locate_rounds 5
