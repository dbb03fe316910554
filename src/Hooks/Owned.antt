-- ===== src/Hooks/Owned.antt =====
-- An enabled query asks for the data of the project of its key.
use mcp_project_server.Prelude.{List, [], ◌∷◌, ◌≡◌, ◌≢◌, Option, some}
use mcp_project_server.Js.Str.{Str}
use mcp_project_server.Client.Endpoints.{Runtime, project_path}
use mcp_project_server.Router.{query_key}
use mcp_project_server.Hooks.Queries.{
  QueryOptions, use_briefing, use_section, use_requirements, use_index_status, use_code_map,
  use_code_map_doc, use_file_scope, use_source, use_code_search,
}

-- The hooks that read a project's data, with their arguments.
pub data Hook : Type 0 where
  briefing requirements index_status code_map code_map_doc : Hook
  section search : Str → Hook
  file_scope source : Option Str → Hook

unfoldable pub options : Runtime → Option Str → Hook → QueryOptions
options rt project briefing = use_briefing rt project
options rt project requirements = use_requirements rt project
options rt project index_status = use_index_status rt project
options rt project code_map = use_code_map rt project
options rt project code_map_doc = use_code_map_doc rt project
options rt project (section name) = use_section rt project name
options rt project (search words) = use_code_search rt project words
options rt project (file_scope place) = use_file_scope rt project place
options rt project (source place) = use_source rt project place

-- The project is the second part of the key, its name is not empty, and the request is under its
-- path.
pub record IsOwned (rt : Runtime) (project : Option Str) (o : QueryOptions) : Type 0 where
  pub owner : Str
  pub given : project ≡ some owner
  pub nonempty : owner ≢ []
  pub kind : Str
  pub rest : List Str
  pub keyed : query_key o.query ≡ kind ∷ owner ∷ rest
  pub suffix : Str
  pub asked : o.call.path ≡ project_path rt owner suffix
