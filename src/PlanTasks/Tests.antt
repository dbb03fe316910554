-- ===== src/PlanTasks/Tests.antt =====
-- A plan of three tasks in a chain, with a lease.
use mathlib.Core.List.{Perm}
use mcp_project_server.Prelude.{
  suc, ℕ, ◌≡◌, refl, ◌<◌, ◌↔◌, inl, true, Option, none, some, List, [], ◌∷◌, arith,
}
use mcp_project_server.Js.Str.{Str, codes, str_eq}
use mcp_project_server.Js.Set.{has, add}
use mcp_project_server.Js.Map.{get, put, from_entries}
use mcp_project_server.Api.Plans.{PlanTask, PlanStatus, TaskStatus}
use mcp_project_server.PlanTasks.{by_id, is_lease_expired, is_reclaimable, is_task_ready}
use mcp_project_server.PlanTasks.Ready.{IsReady, is_task_ready_iff}
use mcp_project_server.PlanTasks.Dag.{
  Layers, layout_dag, place, push_at, depth, depth_of, longest, tasks_in,
}
use mcp_project_server.PlanTasks.Dag.Total.{layout_dag_total}
use mcp_project_server.PlanTasks.Dag.Partition.{layout_dag-perm}
use mcp_project_server.PlanTasks.Dag.Layers.{IsAcyclic}
use mcp_project_server.PlanTasks.Dag.Order.{layout_dag-order}
use mcp_project_server.PlanTasks.Dag.Chains.{IsRooted, in_plan_depth, layout_dag-in_plan_depth}

abbrev task : Str → TaskStatus → Option Str → List Str → PlanTask
task id status lease deps = record {
  id = id;
  plan_id = codes "plan";
  project_id = codes "p";
  local_task_id = id;
  title = id;
  objective = [];
  acceptance_criteria = [];
  linked_files = [];
  priority = 0;
  status = status;
  claimed_by = none;
  lease_expires_at = lease;
  created_at = [];
  updated_at = [];
  dependencies = deps;
  requirement_ids = [];
}

abbrev a : PlanTask
a = task (codes "a") TaskStatus.completed none []

abbrev b : PlanTask
b = task (codes "b") TaskStatus.claimed (some (codes "soon")) (codes "a" ∷ [])

abbrev c : PlanTask
c = task (codes "c") TaskStatus.ready none (codes "b" ∷ codes "a" ∷ [])

abbrev plan : List PlanTask
plan = c ∷ a ∷ b ∷ []

-- Dates as a stand-in for the runtime's parser.
abbrev clock : Str → Option ℕ
clock text = some 100

layout_of_plan : layout_dag plan ≡ some (some (a ∷ []) ∷ some (b ∷ []) ∷ some (c ∷ []) ∷ [])
unfolding layout_dag place push_at depth depth_of longest by_id from_entries get put str_eq has add
layout_of_plan = refl

-- A task whose only prerequisite is not in the plan stands in layer 1, with layer 0 never assigned.
layout_of_dangling : layout_dag (b ∷ []) ≡ some (none ∷ some (b ∷ []) ∷ [])
unfolding layout_dag place push_at depth depth_of longest by_id from_entries get put str_eq has add
layout_of_dangling = refl

layout_dag_total_example : (layers : Layers) × (layout_dag plan ≡ some layers)
layout_dag_total_example = layout_dag_total plan

layout_dag-perm_example : Perm (tasks_in (some (a ∷ []) ∷ some (b ∷ []) ∷ some (c ∷ []) ∷ [])) plan
layout_dag-perm_example = layout_dag-perm plan _ layout_of_plan

abbrev rank : Str → ℕ
rank [] = 0
rank (k ∷ _) = k

plan-IsAcyclic : IsAcyclic (by_id plan) rank
unfolding by_id from_entries put get str_eq
plan-IsAcyclic = record {
  descends = ((λ t _. omega arith, (λ t _. omega arith, tt)), (tt, ((λ t _. omega arith, tt), tt)));
}

plan-IsRooted : IsRooted (by_id plan)
unfolding by_id from_entries get put str_eq
plan-IsRooted = record { known = (refl, (refl, (refl, tt))) }

layout_dag-in_plan_depth_example :
    in_plan_depth (by_id plan) (suc (rank (codes "c"))) (codes "c") ≡ 2
layout_dag-in_plan_depth_example =
    layout_dag-in_plan_depth plan rank plan-IsAcyclic plan-IsRooted _ layout_of_plan 2 c (inl refl)

layout_dag-order_example : ◌<◌ 1 2
unfolding by_id from_entries get put str_eq
layout_dag-order_example =
    layout_dag-order plan rank plan-IsAcyclic _ layout_of_plan 2 1 c b (inl refl) (inl refl) refl
      refl (inl refl)

is_task_ready_iff_example :
    (is_task_ready clock b (by_id plan) PlanStatus.active 100 ≡ true)
    ↔ IsReady clock b (by_id plan) PlanStatus.active 100
is_task_ready_iff_example = is_task_ready_iff clock b (by_id plan) PlanStatus.active 100

b_is_ready : is_task_ready clock b (by_id plan) PlanStatus.active 100 ≡ true
unfolding is_task_ready is_reclaimable is_lease_expired by_id from_entries get put str_eq
b_is_ready = refl
