-- ===== src/Drafts.antt =====
-- pcs-control-panel-project/artifacts/pcs-control-panel/src/lib/planDraft.ts: a drafted plan as the
-- tasks that the dependency view shows, and as what the server is sent.
pub mod Prerequisites
pub mod Layers
mod Tests
use mcp_project_server.Prelude.{Bool, Option, none, some, List, [], ◌∷◌, map, filter}
use mcp_project_server.Js.Str.{Str, codes, str_eq}
use mcp_project_server.Api.Plans.{
  TaskStatus, PlanTask, PlanDraft, PlanDraftTask, PlanDraftDependency, TaskSpecInput,
  DependencySpecInput, CreatePlanWithTasksInput,
}

-- `new Date(0).toISOString()`
abbrev draft_placeholder_timestamp : Str
draft_placeholder_timestamp = codes "1970-01-01T00:00:00.000Z"

abbrev pub prerequisites_of : List PlanDraftDependency → Str → List Str
prerequisites_of dependencies id =
    map (λ d. d.depends_on_local_id) (filter (λ d. str_eq d.task_local_id id) dependencies)

abbrev pub plan_task : List PlanDraftDependency → PlanDraftTask → PlanTask
plan_task dependencies task = record {
  id = task.local_task_id;
  plan_id = [];
  project_id = [];
  local_task_id = task.local_task_id;
  title = task.title;
  objective = task.objective;
  acceptance_criteria = task.acceptance_criteria;
  linked_files = task.linked_files;
  priority = 0;
  status = TaskStatus.pending;
  claimed_by = none;
  lease_expires_at = none;
  created_at = draft_placeholder_timestamp;
  updated_at = draft_placeholder_timestamp;
  dependencies = prerequisites_of dependencies task.local_task_id;
  requirement_ids = task.requirement_ids;
}

unfoldable pub draft_tasks_to_plan_tasks : PlanDraft → List PlanTask
draft_tasks_to_plan_tasks draft = map (plan_task draft.dependencies) draft.tasks

abbrev pub task_spec : PlanDraftTask → TaskSpecInput
task_spec task = record {
  local_task_id = task.local_task_id;
  title = task.title;
  objective = task.objective;
  acceptance_criteria = some task.acceptance_criteria;
  linked_files = some task.linked_files;
  requirement_ids = some task.requirement_ids;
  priority = none;
}

abbrev pub dependency_spec : PlanDraftDependency → DependencySpecInput
dependency_spec d = record {
  task_local_id = d.task_local_id;
  depends_on_local_id = d.depends_on_local_id;
}

unfoldable pub draft_to_create_plan_with_tasks_input : PlanDraft → CreatePlanWithTasksInput
draft_to_create_plan_with_tasks_input draft = record {
  title = draft.title;
  goal = draft.goal;
  tasks = map task_spec draft.tasks;
  dependencies = some (map dependency_spec draft.dependencies);
}
