-- ===== src/PlanForms.antt =====
-- The forms of pcs-control-panel-project/artifacts/pcs-control-panel/src/pages/Plans.tsx: those of
-- the page (`Plans`) and of the plan that it shows (`PlanDetail`). What the notices say is the
-- message of a refusal; the queries that are read again are not part of the state.
pub mod Sent
pub mod Selection
mod Tests
use mcp_project_server.Prelude.{
  ℕ, Bool, true, false, not, ◌&&◌, ◌||◌, Option, none, some, List, [], ◌∷◌, if◌then◌else◌,
}
use mcp_project_server.Js.Str.{Str, codes, str_eq, trim}
use mcp_project_server.Api.Plans.{
  PlanStatus, PlanTask, Plan, CreatePlanInput, UpdatePlanInput, AddPlanTaskInput,
  AddTaskDependencyInput,
}
use mcp_project_server.PlanTasks.{filter_ready_tasks}

-- The state of `Plans`; no filter is 'all', and no selection is null.
pub record PlansPage : Type 0 where
  pub status_filter : Option PlanStatus
  pub selected : Option Str
  pub new_plan_open : Bool
  pub new_title : Str
  pub new_goal : Str
  pub ai_draft_open : Bool

pub data PageEvent : Type 0 where
  filter_by : Option PlanStatus → PageEvent
  select : (id : Str) → PageEvent
  plans_loaded : List Plan → PageEvent
  toggle_new_plan open_ai_draft close_ai_draft : PageEvent
  type_title type_goal : Str → PageEvent
  created ai_created : Plan → PageEvent

-- What a handler does besides setting the state.
pub data Outcome (R : Type 0) : Type 0 where
  nothing : Outcome R
  refused : (message : Str) → Outcome R
  requested : R → Outcome R

-- `!s.trim()`
unfoldable pub is_blank : Str → Bool
unfolding trim str_eq
is_blank s = str_eq (trim s) []

-- `!id`
unfoldable pub is_unset : Option Str → Bool
unfolding str_eq
is_unset none = true
is_unset (some id) = str_eq id []

-- The effect that selects the first plan.
unfoldable pub select_first : PlansPage → List Plan → PlansPage
select_first page [] = page
select_first page (plan ∷ _) =
    if is_unset page.selected then record page { selected = some plan.id } else page

unfoldable pub create_plan : PlansPage → Outcome CreatePlanInput
unfolding is_blank trim
create_plan page =
    if is_blank page.new_title || is_blank page.new_goal
    then refused (codes "Title and goal are both required.")
    else requested (record { title = trim page.new_title; goal = trim page.new_goal })

-- The handlers of `Plans`.
unfoldable pub handle_page : PlansPage → PageEvent → PlansPage
unfolding select_first
handle_page page (filter_by status) = record page { status_filter = status }
handle_page page (select id) = record page { selected = some id }
handle_page page (plans_loaded plans) = select_first page plans
handle_page page toggle_new_plan = record page { new_plan_open = not page.new_plan_open }
handle_page page open_ai_draft = record page { ai_draft_open = true }
handle_page page close_ai_draft = record page { ai_draft_open = false }
handle_page page (type_title text) = record page { new_title = text }
handle_page page (type_goal text) = record page { new_goal = text }
handle_page page (created plan) = record page {
  selected = some plan.id;
  new_title = [];
  new_goal = [];
  new_plan_open = false;
}
handle_page page (ai_created plan) = record page { selected = some plan.id; ai_draft_open = false }

-- The state of the forms of `PlanDetail`.
pub record DetailForms : Type 0 where
  pub editing : Bool
  pub draft_title : Str
  pub draft_goal : Str
  pub ready_only : Bool
  pub add_task_open : Bool
  pub task_local_id : Str
  pub task_title : Str
  pub task_objective : Str
  pub dep_from : Str
  pub dep_on : Str

pub data Lifecycle : Type 0 where
  activate complete archive : Lifecycle

pub data DetailEvent : Type 0 where
  plan_changed start_edit cancel_edit save_edit updated : DetailEvent
  toggle_ready toggle_add_task submit_task task_added : DetailEvent
  submit_dependency dependency_added : DetailEvent
  type_draft_title type_draft_goal type_local_id type_task_title type_objective : Str → DetailEvent
  choose_from choose_on : Str → DetailEvent
  run_lifecycle : Lifecycle → DetailEvent

-- The calls of the forms.
pub data PlanRequest : Type 0 where
  update_plan : UpdatePlanInput → PlanRequest
  add_plan_task : AddPlanTaskInput → PlanRequest
  add_task_dependency : AddTaskDependencyInput → PlanRequest
  change_status : Lifecycle → PlanRequest

-- A text of the edit form, where it is given and is not the plan's.
unfoldable pub changed : (draft current : Str) → Option Str
unfolding is_blank trim str_eq
changed draft current =
    if not (is_blank draft) && not (str_eq draft current) then some (trim draft) else none

abbrev pub is_none : Option Str → Bool
is_none none = true
is_none (some _) = false

unfoldable pub edited : DetailForms → Plan → UpdatePlanInput
unfolding changed
edited forms plan = record {
  title = changed forms.draft_title plan.title;
  goal = changed forms.draft_goal plan.goal;
}

unfoldable pub save : DetailForms → Plan → DetailForms × Outcome PlanRequest
unfolding edited
save forms plan =
    let kwargs = edited forms plan in
    if is_none kwargs.title && is_none kwargs.goal
    then (record forms { editing = false }, nothing)
    else (forms, requested (update_plan kwargs))

unfoldable pub add_task : DetailForms → Outcome PlanRequest
unfolding is_blank trim
add_task forms =
    if is_blank forms.task_local_id || is_blank forms.task_title || is_blank forms.task_objective
    then refused (codes "Local id, title, and objective are all required.")
    else requested (
        add_plan_task (record {
          local_task_id = trim forms.task_local_id;
          title = trim forms.task_title;
          objective = trim forms.task_objective;
          acceptance_criteria = none;
          linked_files = none;
          requirement_ids = none;
          priority = none;
        }))

unfoldable pub add_dependency : DetailForms → Outcome PlanRequest
unfolding str_eq
add_dependency forms =
    if str_eq forms.dep_from [] || str_eq forms.dep_on []
    then refused (codes "Choose both tasks.")
    else if str_eq forms.dep_from forms.dep_on
    then refused (codes "A task cannot depend on itself.")
    else requested (
        add_task_dependency
          (record { task_id = forms.dep_from; depends_on_task_id = forms.dep_on }))

-- The handlers of `PlanDetail`; `updated`, `task_added` and `dependency_added` are those of a
-- success, and `plan_changed` is the effect on another plan's texts.
unfoldable pub handle_detail : Plan → DetailForms → DetailEvent → DetailForms × Outcome PlanRequest
unfolding save add_task add_dependency
handle_detail plan forms plan_changed =
    (record forms { draft_title = plan.title; draft_goal = plan.goal }, nothing)
handle_detail plan forms start_edit = (record forms { editing = true }, nothing)
handle_detail plan forms cancel_edit = (record forms { editing = false }, nothing)
handle_detail plan forms save_edit = save forms plan
handle_detail plan forms updated = (record forms { editing = false }, nothing)
handle_detail plan forms toggle_ready =
    (record forms { ready_only = not forms.ready_only }, nothing)
handle_detail plan forms toggle_add_task =
    (record forms { add_task_open = not forms.add_task_open }, nothing)
handle_detail plan forms submit_task = (forms, add_task forms)
handle_detail plan forms task_added = (
  record forms { task_local_id = []; task_title = []; task_objective = []; add_task_open = false },
  nothing,
)
handle_detail plan forms submit_dependency = (forms, add_dependency forms)
handle_detail plan forms dependency_added = (record forms { dep_from = []; dep_on = [] }, nothing)
handle_detail plan forms (type_draft_title text) = (record forms { draft_title = text }, nothing)
handle_detail plan forms (type_draft_goal text) = (record forms { draft_goal = text }, nothing)
handle_detail plan forms (type_local_id text) = (record forms { task_local_id = text }, nothing)
handle_detail plan forms (type_task_title text) = (record forms { task_title = text }, nothing)
handle_detail plan forms (type_objective text) = (record forms { task_objective = text }, nothing)
handle_detail plan forms (choose_from id) = (record forms { dep_from = id }, nothing)
handle_detail plan forms (choose_on id) = (record forms { dep_on = id }, nothing)
handle_detail plan forms (run_lifecycle step) = (forms, requested (change_status step))

-- The buttons of the plan's status.
unfoldable pub lifecycle_buttons : PlanStatus → List Lifecycle
lifecycle_buttons PlanStatus.draft = activate ∷ archive ∷ []
lifecycle_buttons PlanStatus.active = complete ∷ archive ∷ []
lifecycle_buttons PlanStatus.completed = archive ∷ []
lifecycle_buttons PlanStatus.archived = []

unfoldable pub visible_tasks : (Str → Option ℕ) → DetailForms → Plan → ℕ → List PlanTask
unfolding filter_ready_tasks
visible_tasks get_time forms plan now =
    if forms.ready_only then filter_ready_tasks get_time plan.tasks plan.status now else plan.tasks
