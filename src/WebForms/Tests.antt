-- ===== src/WebForms/Tests.antt =====
-- The forms on small inputs.
use mathlib.Core.Option
use mcp_project_server.Prelude.{◌≡◌, refl, true, false, none, some}
use mcp_project_server.Js.Str.{codes}
use mcp_project_server.Api.Types.{RequirementStatus}
use mcp_project_server.WebForms.{EntryForm, submit_entry, submit_focus, RequirementForm}

abbrev entry : EntryForm
entry = record { headline = codes " Fix "; detail = codes "now" }

abbrev requirement : RequirementForm
requirement = record { title = codes "It runs"; status = RequirementStatus.blocked }

trimmed : Option.map (λ i. i.headline) (submit_entry true false entry) ≡ some (some (codes "Fix"))
unfolding submit_entry
trimmed = refl

same_focus : submit_focus false (codes " a ") (codes "a") ≡ none
unfolding submit_focus
same_focus = refl
