-- ===== src/Router/Shell.antt =====
-- web/src/App.tsx: what the shell shows at a path.
use mcp_project_server.Prelude.{Bool, true, false, ◌||◌, Option, none, some, [], if◌then◌else◌}
use mcp_project_server.Js.Str.{Str, codes, str_eq}
use mcp_project_server.Js.Map.{Map, get}
use mcp_project_server.Router.{ProjectView, view_name, project_route, match_path}

pub record Resolved : Type 0 where
  pub project : Option Str
  pub view : Option ProjectView
  pub redirect_to : Option Str

abbrev pub ai_settings_route : Str
ai_settings_route = codes "/settings/ai"

-- `PROJECT_VIEWS.includes(view)`, with the view.
unfoldable pub find_view : Str → Option ProjectView
unfolding str_eq
find_view name =
    if str_eq name (view_name ProjectView.dashboard)
    then some ProjectView.dashboard
    else if str_eq name (view_name ProjectView.requirements)
    then some ProjectView.requirements
    else if str_eq name (view_name ProjectView.index)
    then some ProjectView.index
    else if str_eq name (view_name ProjectView.code_map)
    then some ProjectView.code_map
    else none

-- `params.name ?? ""`
abbrev pub param : Map Str → Str → Str
param params name = elim (get params name) [ none ↦ [] | some v ↦ v ]

abbrev pub nowhere : Resolved
nowhere = record { project = none; view = none; redirect_to = none }

module _ (encode : Str → Str) where
  abbrev pub to_dashboard : Str → Resolved
  to_dashboard project = record {
    project = some project;
    view = none;
    redirect_to = some (project_route encode project ProjectView.dashboard);
  }

  abbrev pub of_view : Str → Option ProjectView → Resolved
  of_view project none = to_dashboard project
  of_view project (some v) = record { project = some project; view = some v; redirect_to = none }

  abbrev pub of_bare : Option (Map Str) → Resolved
  of_bare none = record { project = none; view = none; redirect_to = some (codes "/") }
  of_bare (some params) = to_dashboard (param params (codes "project"))

  abbrev pub of_match : Option (Map Str) → Option (Map Str) → Resolved
  of_match none bare = of_bare bare
  of_match (some params) bare =
      of_view (param params (codes "project")) (find_view (param params (codes "view")))

module _ (encode decode : Str → Str) where
  unfoldable pub resolve : Str → Resolved
  unfolding match_path find_view
  resolve path =
      if str_eq path (codes "/") || str_eq path []
      then nowhere
      else of_match encode (match_path decode (codes "/projects/:project/:view") path)
          (match_path decode (codes "/projects/:project") path)

  -- What `App` goes by at a path.
  unfoldable pub shell : Str → Resolved
  unfolding resolve
  shell path = if str_eq path ai_settings_route then nowhere else resolve path

-- What `App` shows.
pub data Content : Type 0 where
  loading ai_settings project_list : Content
  project_view : Str → ProjectView → Content

abbrev view_content : Option Str → Option ProjectView → Content
view_content none view = project_list
view_content (some project) none = project_list
view_content (some project) (some v) = project_view project v

abbrev content_of : Bool → Resolved → Content
content_of global_ai_settings resolved = elim resolved.redirect_to [
  | some _ ↦ loading
  | none ↦ if global_ai_settings then ai_settings else view_content resolved.project resolved.view
]

unfoldable pub content : (encode decode : Str → Str) → Str → Content
unfolding shell
content encode decode path = content_of (str_eq path ai_settings_route) (shell encode decode path)

-- `refreshEnabled`
unfoldable pub is_refresh_enabled : Bool → Resolved → Bool
is_refresh_enabled global_ai_settings resolved =
    elim resolved.project [ none ↦ false | some _ ↦ true ] || global_ai_settings
