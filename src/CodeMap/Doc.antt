-- ===== src/CodeMap/Doc.antt =====
-- web/src/lib/codemapDoc.ts: the read-down document of a code map.
pub mod Reasons
pub mod Areas
mod Tests
use mathlib.Core.Option
use mcp_project_server.Prelude.{
  ℕ, ◌+◌, ◌-◌, Bool, true, false, not, ◌&&◌, ◌||◌, Option, none, some, List, [], ◌∷◌, ◌++◌, map,
  foldl, length, take, drop, ltb, ◌==◌, if◌then◌else◌,
}
use mcp_project_server.Js.Str.{Str, codes, str_eq, split}
use mcp_project_server.Js.Set.{add}
use mcp_project_server.Js.Map.{Map, get, put, from_entries}
use mcp_project_server.Js.Sort.{Sign, difference, or_sign, code_order, sort}
use mcp_project_server.Api.Types.{
  CodeMap, CodeMapNode, CodeMapNodeKind, CodeMapOverlay, CodeMapEdge, Entry,
}
use mcp_project_server.CodeMap.Graph.{add_to, members}
use mcp_project_server.CodeMap.Locate.{first_or}
use mcp_project_server.CodeMap.Overlay.{OverlayTone, overlay_tone}
use mcp_project_server.CodeMap.Related.{link_path}

pub record DocChild : Type 0 where
  pub path : Str
  pub label : Str
  pub file_count : ℕ
  pub language : Option Str
  pub tone : Option OverlayTone

pub data DocKind : Type 0 where
  directory file : DocKind

pub record DocArea : Type 0 where
  pub path : Str
  pub label : Str
  pub kind : DocKind
  pub language : Option Str
  pub file_count : ℕ
  pub loc : ℕ
  pub fan_in : ℕ
  pub fan_out : ℕ
  pub tone : Option OverlayTone
  pub badges : List Str
  pub depends_on : List Str
  pub children : List DocChild
  pub more_children : ℕ

pub record HotSpot : Type 0 where
  pub path : Str
  pub reasons : List Str

pub record CodeMapDoc : Type 0 where
  pub project_name : Str
  pub total_files : ℕ
  pub languages : List Str
  pub last_commit : Option Str
  pub overview : Option Str
  pub areas : List DocArea
  pub connections : List Str

abbrev pub max_children : ℕ
max_children = 6

abbrev pub or_nil : {A : Type 0} → Option (List A) → List A
or_nil none = []
or_nil (some xs) = xs

-- `texts.join(", ")`
unfoldable pub join : List Str → Str
join [] = []
join (s ∷ []) = s
join (s ∷ t ∷ ts) = s ++ (codes ", " ++ join (t ∷ ts))

-- `byPath` of `hotSpotsFromEntries`: the reasons of a file, in the order of the entries. A
-- reason that the file has already is not added.
unfoldable pub add_file : Str → Map (List Str) → Str → Map (List Str)
unfolding link_path add_to
add_file reason by_path name =
    let key = link_path name in if str_eq key [] then by_path else add_to by_path key reason

unfoldable pub add_reasons : Str → Map (List Str) → Entry → Map (List Str)
unfolding add_file
add_reasons prefix by_path entry =
    foldl (add_file (prefix ++ entry.headline)) by_path entry.linked_files

unfoldable pub reasons_by_path : List Entry → List Entry → Map (List Str)
unfolding add_reasons
reasons_by_path blockers bugs =
    foldl (add_reasons (codes "bug: ")) (foldl (add_reasons (codes "blocker: ")) [] blockers) bugs

-- The children by their top-level segment; an area itself is left out.
abbrev pub doc_child : Str → CodeMapNode → DocChild
doc_child seg n = record {
  path = n.path;
  label = let rest = drop (length seg + 1) n.path in if str_eq rest [] then n.label else rest;
  file_count = n.file_count;
  language = n.language;
  tone = overlay_tone n.overlay;
}

unfoldable pub add_child : Map (List DocChild) → CodeMapNode → Map (List DocChild)
add_child by_area n =
    let seg = first_or n.path (split b'/' n.path) in
    if str_eq n.path seg
    then by_area
    else put by_area seg (or_nil (get by_area seg) ++ doc_child seg n ∷ [])

-- The edges between two areas of the map, as labels under the source's path or label.
abbrev add_dependency :
    (CodeMapNode → Str) → Map (List Str) → Option CodeMapNode → Option CodeMapNode → Map (List Str)
add_dependency key m (some source) (some target) =
    if str_eq source.id target.id then m else add_to m (key source) target.label
add_dependency key m _ _ = m

unfoldable pub dependencies :
    (CodeMapNode → Str) → Map CodeMapNode → List CodeMapEdge → Map (List Str)
unfolding add_to
dependencies key nodes_by_id edges =
    foldl (λ m e. add_dependency key m (get nodes_by_id e.source) (get nodes_by_id e.target)) []
      edges

unfoldable pub add_language : List Str → Option Str → List Str
add_language languages none = languages
add_language languages (some l) = if str_eq l [] then languages else add languages l

unfoldable pub languages_of : List DocArea → List Str
unfolding add_language
languages_of areas =
    foldl
      (λ languages area.
        foldl (λ ls child. add_language ls child.language) (add_language languages area.language)
          area.children)
      [] areas

-- `show` is the runtime's `String` of a number, and `locale_compare` the sign of `localeCompare`.
module _ (show : ℕ → Str) (locale_compare : Str → Str → Sign) where
  unfoldable pub plural : ℕ → Str → Str
  plural n one = show n ++ (codes " " ++ (one ++ (if n == 1 then [] else codes "s")))

  unfoldable pub overlay_badges : CodeMapOverlay → List Str
  unfolding plural
  overlay_badges o =
      (if ltb 0 o.blockers then plural o.blockers (codes "blocker") ∷ [] else [])
      ++ ((if ltb 0 o.bugs then plural o.bugs (codes "bug") ∷ [] else [])
          ++ ((if ltb 0 o.focus then codes "current focus" ∷ [] else [])
              ++ ((if ltb 0 o.requirements
                    then plural o.requirements (codes "requirement") ∷ []
                    else [])
                  ++ (if o.hot && (o.blockers == 0 && o.bugs == 0) then codes "hot" ∷ [] else []))))

  unfoldable pub compare_children : DocChild → DocChild → Sign
  compare_children a b =
      or_sign (difference b.file_count a.file_count) (locale_compare a.path b.path)

  unfoldable pub compare_nodes : CodeMapNode → CodeMapNode → Sign
  compare_nodes a b = or_sign (difference b.file_count a.file_count) (locale_compare a.path b.path)

  unfoldable pub compare_spots : HotSpot → HotSpot → Sign
  compare_spots a b =
      or_sign (difference (length b.reasons) (length a.reasons)) (locale_compare a.path b.path)

  abbrev doc_kind : CodeMapNodeKind → DocKind
  doc_kind CodeMapNodeKind.file = DocKind.file
  doc_kind _ = DocKind.directory

  unfoldable pub doc_area : Map (List DocChild) → Map (List Str) → CodeMapNode → DocArea
  doc_area children_by_area depends_on n =
      let kids = sort compare_children (or_nil (get children_by_area n.path)) in
      record {
        path = n.path;
        label = n.label;
        kind = doc_kind n.kind;
        language = n.language;
        file_count = n.file_count;
        loc = n.loc;
        fan_in = n.fan_in;
        fan_out = n.fan_out;
        tone = overlay_tone n.overlay;
        badges = overlay_badges n.overlay;
        depends_on = sort code_order (members (get depends_on n.path));
        children = take max_children kids;
        more_children = length kids - max_children;
      }

  unfoldable pub connections_of : Map (List Str) → List Str
  unfolding join
  connections_of by_source =
      map (λ (e : Str × List Str). e.0 ++ (codes " → " ++ join (sort code_order e.1)))
        (sort (λ a b. locale_compare a.0 b.0) by_source)

  unfoldable pub areas_of : CodeMap → Option CodeMap → List DocArea
  areas_of top detail =
      let children_by_area = foldl add_child [] (or_nil (Option.map (λ d. d.nodes) detail)) in
      let nodes_by_id = from_entries (map (λ (n : CodeMapNode). (n.id, n)) top.nodes) in
      map (doc_area children_by_area (dependencies (λ n. n.path) nodes_by_id top.edges))
        (sort compare_nodes top.nodes)

  abbrev or_sum : Option ℕ → List DocArea → ℕ
  or_sum (some n) areas = n
  or_sum none areas = foldl (λ sum area. sum + area.file_count) 0 areas

  unfoldable pub build_code_map_doc : CodeMap → Option CodeMap → Option Str → CodeMapDoc
  build_code_map_doc top detail overview =
      let areas = areas_of top detail in
      let nodes_by_id = from_entries (map (λ (n : CodeMapNode). (n.id, n)) top.nodes) in
      record {
        project_name = top.project_name;
        total_files = or_sum top.stats.total_files areas;
        languages = sort code_order (languages_of areas);
        last_commit = top.generated_from.last_commit;
        overview = overview;
        areas = areas;
        connections = connections_of (dependencies (λ n. n.label) nodes_by_id top.edges);
      }

  unfoldable pub hot_spots_from_entries : List Entry → List Entry → List HotSpot
  hot_spots_from_entries blockers bugs = sort compare_spots (
      map (λ (e : Str × List Str). record { path = e.0; reasons = e.1 })
        (reasons_by_path blockers bugs))
