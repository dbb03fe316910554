-- ===== src/CodeMap/Samples.antt =====
-- A small repository's code map, after web/src/lib/codemap.test.ts: data for the tests.
use mcp_project_server.Prelude.{Bool, true, false, Option, none, some, List, [], ◌∷◌}
use mcp_project_server.Js.Str.{Str, codes}
use mcp_project_server.Api.Types.{
  Entry, EntryLifecycle, CodeMap, CodeMapNode, CodeMapNodeKind, CodeMapEdge, CodeMapOverlay,
  ScopeKind,
}
use mcp_project_server.CodeMap.Graph.{CodeGraph}

abbrev pub quiet : CodeMapOverlay
quiet = record { focus = 0; blockers = 0; bugs = 0; requirements = 0; hot = false }

abbrev pub node_at : Str → Str → CodeMapNodeKind → Bool → CodeMapNode
node_at id path kind outside = record {
  id = id;
  kind = kind;
  path = path;
  label = path;
  language = none;
  loc = 10;
  size_bytes = 100;
  file_count = 1;
  symbol_count = 0;
  fan_in = 0;
  fan_out = 0;
  has_children = true;
  outside_scope = outside;
  overlay = quiet;
  symbol_kind = none;
  start_line = none;
  end_line = none;
  signature = none;
}

abbrev pub services : CodeMapNode
services = node_at (codes "dir:services") (codes "services") CodeMapNodeKind.directory false

abbrev pub lib : CodeMapNode
lib = node_at (codes "dir:lib") (codes "lib") CodeMapNodeKind.directory false

abbrev pub lib_stub : CodeMapNode
lib_stub = node_at (codes "dir:lib") (codes "lib") CodeMapNodeKind.directory true

abbrev pub billing : CodeMapNode
billing =
    node_at (codes "dir:services/billing") (codes "services/billing") CodeMapNodeKind.directory
      false

abbrev pub import : Str → Str → CodeMapEdge
import source target = record {
  source = source;
  target = target;
  kind = codes "import";
  weight = 1;
}

abbrev pub response : Option Str → List CodeMapNode → List CodeMapEdge → CodeMap
response scope nodes edges = record {
  project = codes "p";
  project_name = codes "P";
  scope = scope;
  scope_kind = ScopeKind.directory;
  depth = 1;
  generated_from = record {
    indexed = true;
    last_full_at = none;
    last_incremental_at = none;
    last_commit = none;
    symbol_modes = none;
  };
  nodes = nodes;
  edges = edges;
  dependencies = none;
  dependents = none;
  stats = record {
    total_files = none;
    total_resolved_edges = none;
    node_count = 0;
    edge_count = 0;
    truncated = false;
  };
  overlay_legend = [];
}

abbrev pub top : CodeMap
top = response none (services ∷ lib ∷ []) (import (codes "dir:services") (codes "dir:lib") ∷ [])

abbrev pub subtree : CodeMap
subtree =
    response (some (codes "services")) (billing ∷ lib_stub ∷ [])
      (import (codes "dir:services/billing") (codes "dir:lib") ∷ [])

-- The graph of the top tier, with its fans.
abbrev pub graph : CodeGraph
graph = record {
  nodes =
      (codes "dir:services", record { node = record services { fan_out = 1 }; expanded = false })
      ∷ (codes "dir:lib", record { node = record lib { fan_in = 1 }; expanded = false })
      ∷ [];
  edges =
      (codes "dir:services dir:lib import", import (codes "dir:services") (codes "dir:lib")) ∷ [];
  loaded_scopes = [] ∷ [];
}

abbrev pub touched : Entry
touched = record {
  id = codes "1";
  project_id = codes "p";
  section = codes "bugs";
  headline = codes "h";
  detail = [];
  status = EntryLifecycle.opened;
  priority = 0;
  author = [];
  created_at = [];
  updated_at = [];
  requirement_status = none;
  linked_files = codes "src/api/" ∷ [];
  related_entry_id = none;
  req_key = none;
}
