-- ===== src/Router.antt =====
-- web/src/routes.ts, `resolve` of web/src/App.tsx and `matchPath` of web/src/router/context.ts:
-- the routes of a project's views; and web/src/api/queryKeys.ts, the keys that a refresh
-- invalidates. `encode` and `decode` stand for `encodeURIComponent` and `decodeURIComponent`.
pub mod Routes
pub mod Refresh
pub mod Shell
pub mod Landing
mod Tests
use mcp_project_server.Prelude.{
  Bool, true, false, not, ◌&&◌, ◌||◌, Option, none, some, List, [], ◌∷◌, ◌++◌, filter,
  if◌then◌else◌, drop,
}
use mcp_project_server.Js.Str.{Str, codes, str_eq, starts_with, split}
use mcp_project_server.Js.Map.{Map, put}

pub data ProjectView : Type 0 where
  dashboard requirements index code_map : ProjectView

abbrev pub view_name : ProjectView → Str
view_name ProjectView.dashboard = codes "dashboard"
view_name ProjectView.requirements = codes "requirements"
view_name ProjectView.index = codes "index"
view_name ProjectView.code_map = codes "code-map"

-- `path.split("/").filter(Boolean)`
unfoldable pub segments : Str → List Str
segments path = filter (λ s. not (str_eq s [])) (split b'/' path)

module _ (encode : Str → Str) where
  unfoldable pub project_route : Str → ProjectView → Str
  project_route project view =
      codes "/projects/" ++ (encode project ++ (codes "/" ++ view_name view))

module _ (decode : Str → Str) where
  -- The loop over the segments of the pattern and of the path.
  unfoldable pub match_segments : List Str → List Str → Map Str → Option (Map Str)
  match_segments [] [] params = some params
  match_segments [] (a ∷ segs) params = none
  match_segments (p ∷ pattern) [] params = if str_eq p (codes "*") then some params else none
  match_segments (p ∷ pattern) (a ∷ segs) params =
      let named = match_segments pattern segs (put params (drop 1 p) (decode a)) in
      let same = match_segments pattern segs params in
      if str_eq p (codes "*")
      then some params
      else if starts_with p (codes ":")
      then named
      else if str_eq p a
      then same
      else none

  unfoldable pub match_path : Str → Str → Option (Map Str)
  unfolding segments match_segments
  match_path pattern path = match_segments (segments pattern) (segments path) []

-- The queries of the shell, with the arguments of their keys.
pub data Query : Type 0 where
  projects ai_settings : Query
  briefing requirement_list index_status code_map_doc : Str → Query
  section requirement_contract requirement_evidence source search : Str → Str → Query
  requirement_compliance : Str → List Str → Query
  code_map_tier : Str → Option Str → Query

abbrev or_root : Option Str → Str
or_root none = codes "__root__"
or_root (some scope) = scope

unfoldable pub query_key : Query → List Str
query_key Query.projects = codes "projects" ∷ []
query_key Query.ai_settings = codes "admin" ∷ codes "ai-settings" ∷ []
query_key (Query.briefing project) = codes "briefing" ∷ project ∷ []
query_key (Query.section project name) = codes "section" ∷ project ∷ name ∷ []
query_key (Query.requirement_list project) = codes "requirements" ∷ project ∷ []
query_key (Query.requirement_compliance project ids) =
    codes "requirement-compliance" ∷ project ∷ ids
query_key (Query.requirement_contract project id) = codes "requirement-contract" ∷ project ∷ id ∷ []
query_key (Query.requirement_evidence project id) = codes "requirement-evidence" ∷ project ∷ id ∷ []
query_key (Query.index_status project) = codes "index" ∷ project ∷ []
query_key (Query.code_map_tier project scope) = codes "code-map" ∷ project ∷ or_root scope ∷ []
query_key (Query.code_map_doc project) = codes "code-map-doc" ∷ project ∷ []
query_key (Query.source project path) = codes "source" ∷ project ∷ path ∷ []
query_key (Query.search project text) = codes "search" ∷ project ∷ text ∷ []

abbrev is_ai_settings : List Str → Bool
is_ai_settings (a ∷ b ∷ _) = str_eq a (codes "admin") && str_eq b (codes "ai-settings")
is_ai_settings _ = false

abbrev is_of_project : List Str → Str → Bool
is_of_project [] project = false
is_of_project (a ∷ []) project = str_eq a (codes "projects")
is_of_project (a ∷ b ∷ _) project = str_eq b project

abbrev has_project : List Str → Option Str → Bool
has_project key none = false
has_project key (some project) = is_of_project key project

unfoldable pub is_refreshable : List Str → Option Str → Bool → Bool
is_refreshable key project include_global =
    if include_global && is_ai_settings key then true else has_project key project
