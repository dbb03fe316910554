-- ===== src/PanelQueries/Tests.antt =====
-- Two edits that refresh nothing, and one that does.
use mcp_project_server.Prelude.{◌≡◌, refl, true, false}
use mcp_project_server.Js.Str.{codes}
use mcp_project_server.PanelQueries.{
  section, index, reindex, resolve_entry, add_entry, query_key, invalidates,
}
use mcp_project_server.PanelQueries.Refreshed.{refreshes, invalidates-refreshes}

reindex_keeps_index : invalidates (codes "x") reindex (query_key (codes "x") index) ≡ false
unfolding invalidates query_key
reindex_keeps_index = refl

resolve_keeps_section :
    invalidates (codes "x") resolve_entry (query_key (codes "x") (section (codes "bugs"))) ≡ false
unfolding invalidates query_key
resolve_keeps_section = refl

add_refreshes_section :
    invalidates
      (codes "x")
      (add_entry (codes "bugs"))
      (query_key (codes "x") (section (codes "bugs")))
    ≡ true
unfolding invalidates query_key
add_refreshes_section = refl

invalidates-refreshes_example :
    invalidates (codes "x") reindex (query_key (codes "x") index) ≡ refreshes reindex index
invalidates-refreshes_example = invalidates-refreshes (codes "x") reindex index
