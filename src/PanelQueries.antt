-- ===== src/PanelQueries.antt =====
-- The keys of the control panel's queries
-- (pcs-control-panel-project/lib/api-client-react/src/generated/api.ts) and what the edits of its
-- pages, pcs-control-panel-project/artifacts/pcs-control-panel/src/App.tsx and pages/Plans.tsx,
-- invalidate. Every filter there is on the first part of a key, which is a text; the parameters
-- that may follow it are left out.
pub mod Refreshed
mod Tests
use mcp_project_server.Prelude.{Bool, true, false, ◌||◌, ◌++◌}
use mcp_project_server.Js.Str.{Str, codes, str_eq}
use mcp_project_server.Claims.{is_planning_key}

-- The queries of a project.
pub data PanelQuery : Type 0 where
  briefing requirements compliance index code_map source codebase_guide search : PanelQuery
  token_savings token_savings_summary plans ready_tasks : PanelQuery
  section : (name : Str) → PanelQuery
  contract evidence : (requirement_id : Str) → PanelQuery
  plan plan_ready_tasks : (plan_id : Str) → PanelQuery
  task_history : (plan_id task_id : Str) → PanelQuery

abbrev pub under : Str → Str → Str
under project suffix = codes "/api/projects/" ++ (project ++ suffix)

-- What follows the project in the first part of a key.
unfoldable pub key_suffix : PanelQuery → Str
key_suffix briefing = codes "/briefing"
key_suffix requirements = codes "/requirements"
key_suffix compliance = codes "/requirements/compliance"
key_suffix index = codes "/index"
key_suffix code_map = codes "/code-map"
key_suffix source = codes "/source"
key_suffix codebase_guide = codes "/codebase-guide"
key_suffix search = codes "/search"
key_suffix token_savings = codes "/token-savings"
key_suffix token_savings_summary = codes "/token-savings/summary"
key_suffix plans = codes "/plans"
key_suffix ready_tasks = codes "/ready-tasks"
key_suffix (section name) = codes "/sections/" ++ name
key_suffix (contract id) = codes "/requirements/" ++ (id ++ codes "/contract")
key_suffix (evidence id) = codes "/requirements/" ++ (id ++ codes "/evidence")
key_suffix (plan id) = codes "/plans/" ++ id
key_suffix (plan_ready_tasks id) = codes "/plans/" ++ (id ++ codes "/ready-tasks")
key_suffix (task_history plan_id task_id) =
    codes "/plans/" ++ (plan_id ++ (codes "/tasks/" ++ (task_id ++ codes "/history")))

unfoldable pub query_key : Str → PanelQuery → Str
unfolding key_suffix
query_key project query = under project (key_suffix query)

abbrev pub projects_key : Str
projects_key = codes "/api/projects"

-- The edits, by what they do when the server has accepted them.
pub data PanelEdit : Type 0 where
  register_project delete_project resolve_entry set_focus edit_requirements reindex : PanelEdit
  add_entry : (name : Str) → PanelEdit
  edit_plans : PanelEdit

-- Whether the first part of a key passes the filters of an edit's `invalidateQueries`.
unfoldable pub invalidates : Str → PanelEdit → Str → Bool
unfolding str_eq is_planning_key
invalidates project register_project key = str_eq key projects_key
invalidates project delete_project key = str_eq key projects_key
invalidates project (add_entry name) key = str_eq key (under project (codes "/sections/" ++ name))
invalidates project resolve_entry key = str_eq key (under project (codes "/sections"))
invalidates project set_focus key =
    str_eq key (under project (codes "/sections/focus"))
    || str_eq key (under project (codes "/briefing"))
invalidates project edit_requirements key = str_eq key (under project (codes "/requirements"))
invalidates project reindex key = str_eq key (under project (codes "/index-status"))
invalidates project edit_plans key = is_planning_key project key
