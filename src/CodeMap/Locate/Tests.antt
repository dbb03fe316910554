-- ===== src/CodeMap/Locate/Tests.antt =====
-- Search hits on the small code map.
use mcp_project_server.Prelude.{ℕ, ◌≡◌, refl, some, [], ◌∷◌, arith}
use mcp_project_server.Js.Str.{Str, codes, str_eq, starts_with, split}
use mcp_project_server.Js.Map.{get, put, values, update_all}
use mcp_project_server.Api.Types.{CodeMap}
use mcp_project_server.CodeMap.Graph.{
  merge_code_map, panel_merge_code_map, merge_tier, drop_tier_edges,
}
use mcp_project_server.CodeMap.Samples.{billing, subtree, graph, response}
use mcp_project_server.CodeMap.Locate.{
  expand, unreachable, top_segment, is_ancestor_path, deepest, settle, locate_hit, gave_up, locate,
}
use mcp_project_server.CodeMap.Locate.Landing.{Lands, locate_hit-Lands}
use mcp_project_server.CodeMap.Locate.Stuck.{IsLost, asked, locate-gave_up}

abbrev invoice : Str
invoice = codes "services/billing/invoice.py"

expands_services : locate_hit graph invoice ≡ expand (codes "services")
unfolding locate_hit settle deepest is_ancestor_path get values str_eq starts_with
expands_services = refl

ghost_is_unreachable : locate_hit graph (codes "ghost.py") ≡ unreachable
unfolding locate_hit settle deepest is_ancestor_path top_segment split get values str_eq starts_with
ghost_is_unreachable = refl

locate_hit-Lands_example : Lands graph invoice (locate_hit graph invoice)
locate_hit-Lands_example = locate_hit-Lands graph invoice

panel_then_billing :
    locate_hit (panel_merge_code_map graph subtree) invoice ≡ expand (codes "services/billing")
unfolding panel_merge_code_map merge_tier drop_tier_edges update_all put locate_hit settle deepest
    is_ancestor_path get values str_eq starts_with
panel_then_billing = refl

-- A file of services that the response for the directory does not show.
abbrev hidden : Str
hidden = codes "services/readme.txt"

abbrev shallow : Str → CodeMap
shallow scope = response (some (codes "services")) (billing ∷ []) []

graph-IsLost : IsLost graph (codes "services") hidden
unfolding get str_eq is_ancestor_path starts_with
graph-IsLost = record { absent = refl; only_scope = (λ h. absurd (h refl), (λ h. cc, tt)) }

hidden_expands : locate_hit graph hidden ≡ expand (codes "services")
unfolding locate_hit settle deepest is_ancestor_path get values str_eq starts_with
hidden_expands = refl

locate-gave_up_example :
    ((n : ℕ)
      → locate_hit (asked shallow (codes "services") n graph) hidden ≡ expand (codes "services"))
    × (locate shallow merge_code_map hidden graph
        ≡ (gave_up, asked shallow (codes "services") 5 graph))
unfolding top_segment split str_eq is_ancestor_path starts_with
locate-gave_up_example =
    locate-gave_up shallow hidden (codes "services")
      (record { directory = refl; scope_is = refl; nonempty = cc }) refl (ground arith)
      (ground arith) (cc, tt) graph graph-IsLost hidden_expands
