-- ===== src/Hooks/Tests.antt =====
-- A query and an edit of one project.
use mcp_project_server.Prelude.{◌≡◌, refl, false, none, some, [], ◌∷◌}
use mcp_project_server.Js.Str.{codes, str_eq}
use mcp_project_server.Client.Endpoints.{Runtime}
use mcp_project_server.Router.{Query, is_refreshable, query_key}
use mcp_project_server.Hooks.Queries.{use_section}
use mcp_project_server.Hooks.Mutations.{refreshed}
use mcp_project_server.Hooks.Owned.{section, options}

abbrev rt : Runtime
rt = record { encode = λ s. s; query = λ m. []; show = λ n. []; stringify = λ {A} a. [] }

no_query_without_project : (options rt none (section (codes "focus"))).enabled ≡ false
unfolding options use_section
no_query_without_project = refl

refreshed_of_project :
    refreshed
      (some (codes "p"))
      false
      (Query.briefing (codes "p") ∷ Query.briefing (codes "q") ∷ Query.ai_settings ∷ [])
    ≡ Query.briefing (codes "p") ∷ []
unfolding refreshed is_refreshable query_key str_eq
refreshed_of_project = refl
