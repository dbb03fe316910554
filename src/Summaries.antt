-- ===== src/Summaries.antt =====
-- Small derivations that the views show: web/src/lib/requirements.ts and web/src/lib/semantic.ts,
-- and features.ts and deleteProject.ts of
-- pcs-control-panel-project/artifacts/pcs-control-panel/src/lib. Counts are integers here.
pub mod Shown
pub mod Filters
mod Tests
use Prim.Native.Nat.{min}
use mcp_project_server.Prelude.{
  ℕ, Bool, true, false, not, Option, none, some, List, [], ◌∷◌, ◌++◌, map, if◌then◌else◌,
}
use mcp_project_server.Js.Str.{Str, codes, str_eq, trim}
use mcp_project_server.Js.Map.{Map, get, from_entries}
use mcp_project_server.Api.Types.{Entry, RequirementStatus}
use mcp_project_server.Api.Requirements.{Requirement}
use mcp_project_server.Api.Search.{IndexStatus}

pub data ℤ : Type 0 where
  pos negsuc : ℕ → ℤ

-- `Math.max(0, Math.trunc(n))` of an integer
abbrev pub at_least_zero : ℤ → ℕ
at_least_zero (pos n) = n
at_least_zero (negsuc n) = 0

-- The two numbers of `doneSummary`.
unfoldable pub done_of_total : ℤ → ℤ → ℕ × ℕ
done_of_total done total = (min (at_least_zero done) (at_least_zero total), at_least_zero total)

-- `doneSummary`; `show` is the runtime's `String` of a number.
unfoldable pub done_summary : (ℕ → Str) → ℤ → ℤ → Str
unfolding done_of_total
done_summary show done total =
    let (d, t) = done_of_total done total in show d ++ (codes " of " ++ (show t ++ codes " done"))

unfoldable pub requirement_status_label : RequirementStatus → Str
requirement_status_label RequirementStatus.not_started = codes "Not started"
requirement_status_label RequirementStatus.in_progress = codes "In progress"
requirement_status_label RequirementStatus.blocked = codes "Blocked"
requirement_status_label RequirementStatus.done = codes "Done"

pub record SemanticIndicator : Type 0 where
  pub available : Bool
  pub label : Str
  pub note : Option Str

abbrev pub default_unavailable_note : Str
default_unavailable_note =
    codes "No embedding backend is configured — keyword and structural search only (AC21)."

-- The note of the status, unless it is blank.
abbrev pub trimmed_note : Option Str → Option Str
trimmed_note none = none
trimmed_note (some note) = if str_eq (trim note) [] then none else some (trim note)

abbrev pub or_default : Option Str → Str
or_default none = default_unavailable_note
or_default (some note) = note

unfoldable pub semantic_indicator : IndexStatus → SemanticIndicator
unfolding str_eq trim
semantic_indicator status =
    let note = trimmed_note status.semantic_note in
    if status.semantic_available
    then record { available = true; label = codes "Semantic search available"; note = note }
    else record {
      available = false;
      label = codes "Semantic search unavailable";
      note = some (or_default note);
    }

-- The control panel's entries have a diagram besides.
pub record FeatureEntry : Type 0 where
  pub entry : Entry
  pub diagram : Option Str

pub record ResolvedFeature : Type 0 where
  pub feature : FeatureEntry
  pub requirement : Option Requirement

-- `id ? byId.get(id) : undefined`
abbrev pub linked : Map Requirement → Option Str → Option Requirement
linked by_id none = none
linked by_id (some id) = if str_eq id [] then none else get by_id id

unfoldable pub resolve_feature_requirements :
    List FeatureEntry → List Requirement → List ResolvedFeature
unfolding from_entries get str_eq
resolve_feature_requirements features requirements =
    let by_id = from_entries (map (λ r. (r.entry_id, r)) requirements) in
    map (λ f. record { feature = f; requirement = linked by_id f.entry.related_entry_id }) features

unfoldable pub can_confirm_project_delete : Str → Str → Bool
unfolding str_eq trim
can_confirm_project_delete typed project_name = str_eq (trim typed) project_name
