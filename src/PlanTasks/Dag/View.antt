-- ===== src/PlanTasks/Dag/View.antt =====
-- pcs-control-panel-project/artifacts/pcs-control-panel/src/components/plans/DagView.tsx: what a
-- task's chip says of its prerequisites.
use mcp_project_server.Prelude.{
  ℕ, ◌≡◌, refl, Bool, true, false, not, Option, none, some, List, [], ◌∷◌, ◌++◌, map, any, all,
  arith, ◌==◌, if◌then◌else◌,
}
use mcp_project_server.Js.Str.{Str, codes}
use mcp_project_server.Js.Map.{Map, get}
use mcp_project_server.Api.Plans.{PlanStatus, PlanTask}
use mcp_project_server.PlanTasks.{is_completed, is_task_ready}
use mcp_project_server.PlanTasks.Dag.{is_empty}

-- The heading of a layer; `show` is the runtime's `String` of a number.
unfoldable pub layer_label : (ℕ → Str) → ℕ → Str
layer_label show index =
    if index == 0 then codes "No prerequisites" else codes "Depth " ++ show index

abbrev name_or : Str → Option PlanTask → Str
name_or dep_id none = dep_id
name_or dep_id (some task) = task.local_task_id

-- `byId.get(depId)?.local_task_id ?? depId` of every prerequisite
unfoldable pub prerequisite_names : Map PlanTask → PlanTask → List Str
prerequisite_names tasks_by_id task =
    map (λ dep_id. name_or dep_id (get tasks_by_id dep_id)) task.dependencies

-- Whether the chip says that the task is blocked: a prerequisite that is missing counts.
unfoldable pub shows_blocked : Map PlanTask → PlanTask → Bool
shows_blocked tasks_by_id task =
    if is_empty task.dependencies
    then false
    else any (λ dep_id. not (is_completed (get tasks_by_id dep_id))) task.dependencies

any-not : {A : Type 0} (p : A → Bool) (xs : List A) → any (λ x. not (p x)) xs ≡ not (all p xs)
any-not p [] = refl
any-not p (x ∷ xs) = ground (arith, any-not p xs)

unless_empty :
    (p : Str → Bool) (deps : List Str)
    → (if is_empty deps then false else any (λ d. not (p d)) deps) ≡ not (all p deps)
unless_empty p [] = refl
unless_empty p (dep ∷ deps) = any-not p (dep ∷ deps)

shows_blocked-all :
    (tasks_by_id : Map PlanTask) (task : PlanTask)
    → shows_blocked tasks_by_id task
      ≡ not (all (λ dep_id. is_completed (get tasks_by_id dep_id)) task.dependencies)
unfolding shows_blocked
shows_blocked-all tasks_by_id task =
    unless_empty (λ dep_id. is_completed (get tasks_by_id dep_id)) task.dependencies

-- A task that holds for ready is not shown as blocked by a prerequisite.
pub is_task_ready-shows_blocked :
    (get_time : Str → Option ℕ) (task : PlanTask) (tasks_by_id : Map PlanTask) (plan : PlanStatus)
    (now : ℕ)
    → is_task_ready get_time task tasks_by_id plan now ≡ true
    → shows_blocked tasks_by_id task ≡ false
unfolding is_task_ready
is_task_ready-shows_blocked get_time task tasks_by_id plan now h =
    ground (arith, shows_blocked-all tasks_by_id task)
