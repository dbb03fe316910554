-- ===== src/Router/Refresh.antt =====
-- The queries that a refresh invalidates.
use mcp_project_server.Prelude.{◌≡◌, Bool, true, false, some, arith}
use mcp_project_server.Js.Str.{Str, codes, str_eq}
use mcp_project_server.Router.{Query, query_key, is_refreshable}

-- A query belongs to a project, to all projects, or to the server's settings.
abbrev pub belongs : Query → Str → Bool → Bool
belongs Query.projects project include_global = true
belongs Query.ai_settings project include_global = include_global
belongs (Query.briefing owner) project include_global = str_eq owner project
belongs (Query.section owner _) project include_global = str_eq owner project
belongs (Query.requirement_list owner) project include_global = str_eq owner project
belongs (Query.requirement_compliance owner _) project include_global = str_eq owner project
belongs (Query.requirement_contract owner _) project include_global = str_eq owner project
belongs (Query.requirement_evidence owner _) project include_global = str_eq owner project
belongs (Query.index_status owner) project include_global = str_eq owner project
belongs (Query.code_map_tier owner _) project include_global = str_eq owner project
belongs (Query.code_map_doc owner) project include_global = str_eq owner project
belongs (Query.source owner _) project include_global = str_eq owner project
belongs (Query.search owner _) project include_global = str_eq owner project

-- A refresh of a project, which is not called "ai-settings", invalidates exactly the shared list
-- of projects, the queries of the project, and, where it includes what is global, the AI settings.
pub is_refreshable-belongs :
    (q : Query) (project : Str) (include_global : Bool)
    → str_eq (codes "ai-settings") project ≡ false
    → is_refreshable (query_key q) (some project) include_global ≡ belongs q project include_global
unfolding is_refreshable query_key str_eq
is_refreshable-belongs Query.projects project include_global h = ground arith
is_refreshable-belongs Query.ai_settings project include_global h = ground arith
is_refreshable-belongs (Query.briefing owner) project include_global h = ground arith
is_refreshable-belongs (Query.section owner _) project include_global h = ground arith
is_refreshable-belongs (Query.requirement_list owner) project include_global h = ground arith
is_refreshable-belongs (Query.requirement_compliance owner _) project include_global h =
    ground arith
is_refreshable-belongs (Query.requirement_contract owner _) project include_global h = ground arith
is_refreshable-belongs (Query.requirement_evidence owner _) project include_global h = ground arith
is_refreshable-belongs (Query.index_status owner) project include_global h = ground arith
is_refreshable-belongs (Query.code_map_tier owner _) project include_global h = ground arith
is_refreshable-belongs (Query.code_map_doc owner) project include_global h = ground arith
is_refreshable-belongs (Query.source owner _) project include_global h = ground arith
is_refreshable-belongs (Query.search owner _) project include_global h = ground arith
