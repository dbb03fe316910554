-- ===== src/PlanTasks.antt =====
-- pcs-control-panel-project/artifacts/pcs-control-panel/src/lib/planTasks.ts: which tasks are
-- ready. `get_time` stands for `new Date(text).getTime()`, in milliseconds since 1970, with `none`
-- for an invalid date (NaN); the current time is an argument.
pub mod Ready
pub mod Dag
mod Tests
use mcp_project_server.Prelude.{
  ℕ, Bool, true, false, not, ◌&&◌, ◌||◌, Option, none, some, List, [], ◌∷◌, foldl, map, filter, all,
  leb, if◌then◌else◌,
}
use mcp_project_server.Js.Str.{Str, str_eq}
use mcp_project_server.Js.Map.{Map, get, from_entries}
use mcp_project_server.Api.Plans.{PlanStatus, TaskStatus, PlanTask}

pub data LeaseState : Type 0 where
  unleased active expired : LeaseState

-- `RECLAIMABLE_STATUSES.has`
unfoldable pub reclaimable_status : TaskStatus → Bool
reclaimable_status TaskStatus.claimed = true
reclaimable_status TaskStatus.in_progress = true
reclaimable_status TaskStatus.in_review = true
reclaimable_status _ = false

-- `NOT_READY_STATUSES.has`
unfoldable pub not_ready_status : TaskStatus → Bool
not_ready_status TaskStatus.completed = true
not_ready_status TaskStatus.cancelled = true
not_ready_status TaskStatus.blocked = true
not_ready_status _ = false

abbrev pub is_ready_status : TaskStatus → Bool
is_ready_status TaskStatus.ready = true
is_ready_status _ = false

abbrev pub is_active_plan : PlanStatus → Bool
is_active_plan PlanStatus.active = true
is_active_plan _ = false

-- `tasksById.get(depId)?.status === "completed"`
abbrev pub is_completed : Option PlanTask → Bool
is_completed none = false
is_completed (some t) = elim t.status [ TaskStatus.completed ↦ true | _ ↦ false ]

-- A comparison with an invalid date is false.
abbrev pub at_most : Option ℕ → ℕ → Bool
at_most none now = false
at_most (some t) now = leb t now

-- `new Map(tasks.map((t) => [t.id, t]))`
unfoldable pub by_id : List PlanTask → Map PlanTask
unfolding from_entries
by_id tasks = from_entries (map (λ t. (t.id, t)) tasks)

module _ (get_time : Str → Option ℕ) where
  unfoldable pub is_lease_expired : Option Str → ℕ → Bool
  is_lease_expired none now = false
  is_lease_expired (some text) now = if str_eq text [] then false else at_most (get_time text) now

  unfoldable pub is_reclaimable : PlanTask → ℕ → Bool
  unfolding reclaimable_status
  is_reclaimable task now =
      reclaimable_status task.status && is_lease_expired task.lease_expires_at now

  -- `!task.lease_expires_at`
  abbrev pub no_lease : Option Str → Bool
  no_lease none = true
  no_lease (some text) = str_eq text []

  unfoldable pub lease_state : PlanTask → ℕ → LeaseState
  unfolding is_lease_expired reclaimable_status
  lease_state task now =
      if not (reclaimable_status task.status) || no_lease task.lease_expires_at
      then unleased
      else if is_lease_expired task.lease_expires_at now
      then expired
      else active

  unfoldable pub is_task_ready : PlanTask → Map PlanTask → PlanStatus → ℕ → Bool
  unfolding not_ready_status
  is_task_ready task tasks_by_id plan_status now =
      if not (is_active_plan plan_status)
      then false
      else if not_ready_status task.status
      then false
      else if not (all (λ dep_id. is_completed (get tasks_by_id dep_id)) task.dependencies)
      then false
      else is_ready_status task.status || is_reclaimable task now

  unfoldable pub filter_ready_tasks : List PlanTask → PlanStatus → ℕ → List PlanTask
  filter_ready_tasks tasks plan_status now =
      filter (λ task. is_task_ready task (by_id tasks) plan_status now) tasks
