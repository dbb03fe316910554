-- ===== src/Summaries/Tests.antt =====
-- A status without a note, and a feature of a requirement.
use mcp_project_server.Prelude.{◌≡◌, refl, false, true, none, some, [], ◌∷◌}
use mcp_project_server.Js.Str.{codes, str_eq, trim}
use mcp_project_server.Js.Map.{put, get}
use mcp_project_server.Api.Types.{Entry, EntryLifecycle, RequirementStatus}
use mcp_project_server.Api.Requirements.{Requirement}
use mcp_project_server.Api.Search.{IndexStatus}
use mcp_project_server.Summaries.{
  pos, done_of_total, default_unavailable_note, semantic_indicator, FeatureEntry,
  resolve_feature_requirements, can_confirm_project_delete,
}

clamped : done_of_total (pos 7) (pos 5) ≡ (5, 5)
unfolding done_of_total
clamped = refl

confirmed : can_confirm_project_delete (codes " pcs ") (codes "pcs") ≡ true
unfolding can_confirm_project_delete trim str_eq
confirmed = refl

abbrev status : IndexStatus
status = record {
  project_id = codes "1";
  project_name = codes "p";
  state = codes "idle";
  last_full_at = none;
  last_incremental_at = none;
  last_commit = none;
  file_count = 0;
  chunk_count = 0;
  skipped_count = 0;
  skipped = [];
  semantic_available = false;
  semantic_note = some (codes "  ");
}

default_reason : (semantic_indicator status).note ≡ some default_unavailable_note
unfolding semantic_indicator trim str_eq
default_reason = refl

abbrev entry : Entry
entry = record {
  id = codes "f";
  project_id = codes "1";
  section = codes "features";
  headline = [];
  detail = [];
  status = EntryLifecycle.opened;
  priority = 0;
  author = [];
  created_at = [];
  updated_at = [];
  requirement_status = none;
  linked_files = [];
  related_entry_id = some (codes "r");
  req_key = none;
}

abbrev feature : FeatureEntry
feature = record { entry = entry; diagram = none }

abbrev requirement : Requirement
requirement = record {
  req_key = codes "R1";
  entry_id = codes "r";
  title = [];
  status = RequirementStatus.done;
  lifecycle = [];
  linked_files = [];
}

resolved :
    resolve_feature_requirements (feature ∷ []) (requirement ∷ [])
    ≡ record { feature = feature; requirement = some requirement } ∷ []
unfolding resolve_feature_requirements put get str_eq
resolved = refl
