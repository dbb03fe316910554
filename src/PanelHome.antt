-- ===== src/PanelHome.antt =====
-- The projects in pcs-control-panel-project/artifacts/pcs-control-panel/src/App.tsx: the forms of
-- HomePicker, which registers and unregisters projects, and the confirmation in AppShell.
pub mod Confirmed
mod Tests
use mcp_project_server.Prelude.{
  Bool, true, false, not, ◌&&◌, ◌||◌, Option, none, some, List, [], ◌∷◌, if◌then◌else◌,
}
use mcp_project_server.Js.Str.{Str, codes, trim}
use mcp_project_server.Api.Projects.{RegisterProjectInput}
use mcp_project_server.Summaries.{can_confirm_project_delete}
use mcp_project_server.PlanForms.{Outcome, nothing, refused, requested, is_blank}

-- The state of `HomePicker`.
pub record Home : Type 0 where
  pub show_form : Bool
  pub name : Str
  pub path : Str
  pub pending_delete : Option Str
  pub confirm_name : Str

abbrev pub new_home : Home
new_home = record {
  show_form = false;
  name = [];
  path = [];
  pending_delete = none;
  confirm_name = [];
}

pub data HomeEvent : Type 0 where
  toggle_form register registered confirm_delete cancel_delete deleted call_failed : HomeEvent
  type_name type_path type_confirm : Str → HomeEvent
  ask_delete : (project : Str) → HomeEvent

pub data HomeRequest : Type 0 where
  register_project : RegisterProjectInput → HomeRequest
  delete_project : (project : Str) → HomeRequest

unfoldable pub submit_register : Home → Outcome HomeRequest
unfolding is_blank trim
submit_register home =
    if is_blank home.name || is_blank home.path
    then refused (codes "Name and local path are both required.")
    else requested (
        register_project
          (record { name = trim home.name; root_path = trim home.path; overview = [] }))

abbrev pub confirmed : Str → Option Str → Outcome HomeRequest
confirmed typed none = nothing
confirmed typed (some target) =
    if can_confirm_project_delete typed target then requested (delete_project target) else nothing

-- `confirmDelete`
unfoldable pub submit_delete : Home → Outcome HomeRequest
unfolding can_confirm_project_delete
submit_delete home = confirmed home.confirm_name home.pending_delete

-- The handlers of the page; `registered` and `deleted` are those of a success.
unfoldable pub handle_home : Home → HomeEvent → Home × Outcome HomeRequest
unfolding submit_register submit_delete
handle_home home toggle_form = (record home { show_form = not home.show_form }, nothing)
handle_home home (type_name text) = (record home { name = text }, nothing)
handle_home home (type_path text) = (record home { path = text }, nothing)
handle_home home register = (home, submit_register home)
handle_home home registered = (record home { name = []; path = []; show_form = false }, nothing)
handle_home home (ask_delete project) =
    (record home { pending_delete = some project; confirm_name = [] }, nothing)
handle_home home (type_confirm text) = (record home { confirm_name = text }, nothing)
handle_home home cancel_delete = (record home { pending_delete = none; confirm_name = [] }, nothing)
handle_home home confirm_delete = (home, submit_delete home)
handle_home home deleted = (record home { pending_delete = none; confirm_name = [] }, nothing)
handle_home home call_failed = (home, nothing)

-- The confirmation in `AppShell`, which is of the current project: what `onConfirm` sends.
unfoldable pub shell_confirm : (confirm_name current_project : Str) → Outcome HomeRequest
unfolding can_confirm_project_delete
shell_confirm confirm_name current_project =
    if can_confirm_project_delete confirm_name current_project
    then requested (delete_project current_project)
    else nothing

-- Whether the button of the confirmation can be pressed.
unfoldable pub delete_enabled : (typed project_name : Str) → (pending : Bool) → Bool
unfolding can_confirm_project_delete
delete_enabled typed project_name pending =
    not (not (can_confirm_project_delete typed project_name) || pending)
