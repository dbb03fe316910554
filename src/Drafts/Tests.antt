-- ===== src/Drafts/Tests.antt =====
-- A draft of two tasks, one after the other.
use mcp_project_server.Prelude.{ℕ, ◌≡◌, refl, some, none, [], ◌∷◌, if◌then◌else◌}
use mcp_project_server.Js.Str.{Str, codes, str_eq}
use mcp_project_server.Js.Map.{get, put, from_entries}
use mcp_project_server.Js.Set.{has}
use mcp_project_server.Api.Plans.{PlanDraft, PlanDraftTask, PlanDraftDependency, PlanTask}
use mcp_project_server.PlanTasks.{by_id}
use mcp_project_server.PlanTasks.Dag.{Layers, layout_dag, place, push_at, depth, depth_of, longest}
use mcp_project_server.Drafts.{plan_task, draft_tasks_to_plan_tasks}

abbrev draft_task : Str → PlanDraftTask
draft_task id = record {
  local_task_id = id;
  title = [];
  objective = [];
  acceptance_criteria = [];
  linked_files = [];
  requirement_ids = [];
}

abbrev waits : PlanDraftDependency
waits = record { task_local_id = codes "b"; depends_on_local_id = codes "a" }

abbrev draft : PlanDraft
draft = record {
  title = codes "plan";
  goal = [];
  tasks = draft_task (codes "b") ∷ draft_task (codes "a") ∷ [];
  dependencies = waits ∷ [];
  notes = none;
}

abbrev view : Str → PlanTask
view id = plan_task (waits ∷ []) (draft_task id)

abbrev layers : Layers
layers = some (view (codes "a") ∷ []) ∷ some (view (codes "b") ∷ []) ∷ []

abbrev rank : Str → ℕ
rank id = if str_eq id (codes "b") then 1 else 0

laid_out : layout_dag (draft_tasks_to_plan_tasks draft) ≡ some layers
unfolding layout_dag place push_at depth depth_of longest by_id from_entries get put str_eq
    draft_tasks_to_plan_tasks has
laid_out = refl
