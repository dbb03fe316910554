-- ===== src/Hooks/Mutations.antt =====
-- The mutations of web/src/hooks: their requests, and what they do to the cache on success.
use mcp_project_server.Prelude.{
  Bool, true, false, not, filter, ◌&&◌, Option, none, some, List, [], ◌∷◌, ◌++◌, if◌then◌else◌,
}
use mcp_project_server.Js.Str.{Str, codes}
use mcp_project_server.Api.Types.{RequirementStatus}
use mcp_project_server.Api.Projects.{Project, EntryInput, RegisterProjectInput}
use mcp_project_server.Client.Request.{Request}
use mcp_project_server.Client.Endpoints.{
  Runtime, register_project, add_entry, update_entry, resolve_entry, set_focus, reindex,
}
use mcp_project_server.Client.Requirements.{sync_requirements}
use mcp_project_server.Router.{Query, query_key, is_refreshable}

-- A mutation's request, the queries whose data its response replaces, and those that it
-- invalidates.
pub record Mutation : Type 0 where
  pub call : Request
  pub written : List Query
  pub invalidated : List Query

abbrev no_input : EntryInput
no_input = record {
  section = none;
  headline = none;
  detail = none;
  priority = none;
  status = none;
  linked_files = none;
}

-- `invalidate` of `useEntryMutations`
unfoldable pub entry_queries : Str → Str → List Query
entry_queries project section =
    Query.section project section ∷ Query.briefing project ∷ Query.requirement_list project ∷ []

-- `invalidate` of `useRequirementMutations`
unfoldable pub requirement_queries : Str → List Query
requirement_queries project =
    Query.requirement_list project
    ∷ Query.section project (codes "requirements")
    ∷ Query.briefing project
    ∷ []

-- What the updater of `useRegisterProject` makes of the cached list.
unfoldable pub with_created : Option (List Project) → Project → List Project
with_created none created = created ∷ []
with_created (some current) created = current ++ created ∷ []

abbrev is_chosen : Option Str → Bool
is_chosen none = false
is_chosen (some _) = true

-- `refresh` of `useRefreshAll`: the cached queries that it invalidates.
unfoldable pub refreshed : Option Str → Bool → List Query → List Query
unfolding is_refreshable
refreshed project include_global cached =
    if not (is_chosen project) && not include_global
    then []
    else filter (λ q. is_refreshable (query_key q) project include_global) cached

module _ (rt : Runtime) where
  unfoldable pub entry_add : Str → Str → EntryInput → Mutation
  unfolding entry_queries
  entry_add project section input = record {
    call = add_entry rt project input;
    written = [];
    invalidated = entry_queries project section;
  }

  unfoldable pub entry_update : Str → Str → Str → EntryInput → Mutation
  unfolding entry_queries
  entry_update project section entry_id input = record {
    call = update_entry rt project entry_id input;
    written = [];
    invalidated = entry_queries project section;
  }

  unfoldable pub entry_resolve : Str → Str → Str → Mutation
  unfolding entry_queries
  entry_resolve project section entry_id = record {
    call = resolve_entry rt project entry_id;
    written = [];
    invalidated = entry_queries project section;
  }

  unfoldable pub requirement_add : Str → Str → RequirementStatus → Mutation
  unfolding requirement_queries
  requirement_add project title status = record {
    call = add_entry rt project (record no_input {
      section = some (codes "requirements");
      headline = some title;
      status = some status;
    });
    written = [];
    invalidated = requirement_queries project;
  }

  unfoldable pub requirement_set_status : Str → Str → RequirementStatus → Mutation
  unfolding requirement_queries
  requirement_set_status project entry_id status = record {
    call = update_entry rt project entry_id (record no_input { status = some status });
    written = [];
    invalidated = requirement_queries project;
  }

  unfoldable pub requirement_sync : Str → Mutation
  unfolding requirement_queries
  requirement_sync project = record {
    call = sync_requirements rt project;
    written = [];
    invalidated = requirement_queries project;
  }

  unfoldable pub use_set_focus : Str → Str → Mutation
  use_set_focus project text = record {
    call = set_focus rt project text;
    written = [];
    invalidated =
        Query.section project (codes "focus") ∷ Query.projects ∷ Query.briefing project ∷ [];
  }

  unfoldable pub use_reindex : Str → Bool → Mutation
  use_reindex project incremental = record {
    call = reindex rt project incremental;
    written = Query.index_status project ∷ [];
    invalidated = Query.index_status project ∷ (if incremental then [] else Query.ai_settings ∷ []);
  }

  unfoldable pub use_register_project : RegisterProjectInput → Mutation
  use_register_project input = record {
    call = register_project rt input;
    written = Query.projects ∷ [];
    invalidated = Query.projects ∷ [];
  }
