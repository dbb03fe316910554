-- ===== src/Hooks/Queries.antt =====
-- The queries of web/src/hooks: their keys, their requests, and when they are enabled.
use mcp_project_server.Prelude.{
  ℕ, Bool, true, false, not, ◌&&◌, Option, none, some, List, [], ◌∷◌, if◌then◌else◌,
}
use mcp_project_server.Js.Str.{Str, str_eq}
use mcp_project_server.Api.Projects.{Project}
use mcp_project_server.Client.Request.{Request}
use mcp_project_server.Client.Endpoints.{
  Runtime, get_ai_settings, list_projects, get_briefing, get_section, get_index_status,
  get_code_map, get_source, search_code,
}
use mcp_project_server.Client.Requirements.{
  list_requirements, get_requirement_contract, get_requirement_evidence,
}
use mcp_project_server.Router.{Query}

-- What a hook hands to `useQuery`. A hook that says nothing of `enabled` is enabled.
pub record QueryOptions : Type 0 where
  pub query : Query
  pub call : Request
  pub enabled : Bool

-- `value ?? ""`
abbrev pub or_empty : Option Str → Str
or_empty none = []
or_empty (some s) = s

-- `value !== null && value !== ""`
abbrev pub is_named : Option Str → Bool
is_named none = false
is_named (some s) = not (str_eq s [])

unfoldable pub find_project : List Project → Str → Option Project
find_project [] name = none
find_project (p ∷ projects) name = if str_eq p.name name then some p else find_project projects name

-- `useProject`, from the list that `useProjects` has so far.
unfoldable pub use_project : Option (List Project) → Option Str → Option Project
unfolding find_project
use_project data_ none = none
use_project none (some name) = none
use_project (some projects) (some name) = find_project projects name

module _ (rt : Runtime) where
  unfoldable pub use_projects : QueryOptions
  use_projects = record { query = Query.projects; call = list_projects rt; enabled = true }

  unfoldable pub use_ai_settings : QueryOptions
  use_ai_settings = record { query = Query.ai_settings; call = get_ai_settings rt; enabled = true }

  unfoldable pub use_briefing : Option Str → QueryOptions
  use_briefing project = record {
    query = Query.briefing (or_empty project);
    call = get_briefing rt (or_empty project);
    enabled = is_named project;
  }

  unfoldable pub use_section : Option Str → Str → QueryOptions
  use_section project section = record {
    query = Query.section (or_empty project) section;
    call = get_section rt (or_empty project) section false;
    enabled = is_named project;
  }

  unfoldable pub use_requirements : Option Str → QueryOptions
  use_requirements project = record {
    query = Query.requirement_list (or_empty project);
    call = list_requirements rt (or_empty project);
    enabled = is_named project;
  }

  unfoldable pub use_index_status : Option Str → QueryOptions
  use_index_status project = record {
    query = Query.index_status (or_empty project);
    call = get_index_status rt (or_empty project);
    enabled = is_named project;
  }

  unfoldable pub use_code_map : Option Str → QueryOptions
  use_code_map project = record {
    query = Query.code_map_tier (or_empty project) none;
    call = get_code_map rt (or_empty project) none none;
    enabled = is_named project;
  }

  unfoldable pub use_code_map_doc : Option Str → QueryOptions
  use_code_map_doc project = record {
    query = Query.code_map_doc (or_empty project);
    call = get_code_map rt (or_empty project) none (some 2);
    enabled = is_named project;
  }

  -- `fetchCodeMapScope` runs its query at once.
  unfoldable pub fetch_code_map_scope : Str → Str → Option ℕ → QueryOptions
  fetch_code_map_scope project scope depth = record {
    query = Query.code_map_tier project (some scope);
    call = get_code_map rt project (some scope) depth;
    enabled = true;
  }

  unfoldable pub use_file_scope : Option Str → Option Str → QueryOptions
  use_file_scope project path = record {
    query = Query.code_map_tier (or_empty project) path;
    call = get_code_map rt (or_empty project) (some (or_empty path)) none;
    enabled = is_named project && is_named path;
  }

  unfoldable pub use_source : Option Str → Option Str → QueryOptions
  use_source project path = record {
    query = Query.source (or_empty project) (or_empty path);
    call = get_source rt (or_empty project) (or_empty path);
    enabled = is_named project && is_named path;
  }

  unfoldable pub use_code_search : Option Str → Str → QueryOptions
  use_code_search project text = record {
    query = Query.search (or_empty project) text;
    call =
        search_code rt (or_empty project) text
          (record { scope = none; subtree = none; limit = some 30 });
    enabled = is_named project && not (str_eq text []);
  }

  -- `useRequirementComplianceDetail`: the contract and the evidence.
  unfoldable pub use_compliance_detail : Str → Str → Bool → QueryOptions × QueryOptions
  use_compliance_detail project requirement_id enabled = (
    record {
      query = Query.requirement_contract project requirement_id;
      call = get_requirement_contract rt project requirement_id;
      enabled = enabled;
    },
    record {
      query = Query.requirement_evidence project requirement_id;
      call = get_requirement_evidence rt project requirement_id;
      enabled = enabled;
    },
  )
