-- ===== src/Drafts/Layers.antt =====
-- The dependency view of a draft.
use mcp_project_server.Prelude.{◌≡◌, ℕ, ◌<◌, some, List, [], ◌∷◌, In, All, All-map, map, foldl}
use mcp_project_server.Js.Str.{Str}
use mcp_project_server.Js.Map.{Map, get, put, Each, put-Each, from_entries}
use mcp_project_server.Api.Plans.{PlanTask, PlanDraft, PlanDraftTask, PlanDraftDependency}
use mcp_project_server.PlanTasks.{by_id}
use mcp_project_server.PlanTasks.Dag.{Layers, layer_at, layout_dag}
use mcp_project_server.PlanTasks.Dag.Layers.{IsAcyclic}
use mcp_project_server.PlanTasks.Dag.Order.{layout_dag-order}
use mcp_project_server.Drafts.{plan_task, prerequisites_of, draft_tasks_to_plan_tasks}
use mcp_project_server.Drafts.Prerequisites.{prerequisites_of-All, prerequisites_of_iff}

module _ (P : Str → PlanTask → Type 0) where
  put_all-Each :
      (entries : List (Str × PlanTask)) (m : Map PlanTask)
      → All (λ e. P e.0 e.1) entries
      → Each P m
      → Each P (foldl (λ m e. put m e.0 e.1) m entries)
  put_all-Each [] m h k = k
  put_all-Each (e ∷ entries) m h k =
      put_all-Each entries (put m e.0 e.1) h.1 (put-Each P m e.0 e.1 h.0 k)

  entries-All :
      (dependencies : List PlanDraftDependency) (ts : List PlanDraftTask)
      → ((t : PlanDraftTask) → P t.local_task_id (plan_task dependencies t))
      → All
          (λ (e : Str × PlanTask). P e.0 e.1)
          (map (λ (t : PlanTask). (t.id, t)) (map (plan_task dependencies) ts))
  entries-All dependencies [] h = tt
  entries-All dependencies (t ∷ ts) h = (h t, entries-All dependencies ts h)

  by_id-Each :
      (dependencies : List PlanDraftDependency) (tasks : List PlanDraftTask)
      → ((t : PlanDraftTask) → P t.local_task_id (plan_task dependencies t))
      → Each P (by_id (map (plan_task dependencies) tasks))
  unfolding by_id from_entries
  by_id-Each dependencies tasks h = put_all-Each _ [] (entries-All dependencies tasks h) tt

-- The prerequisites of the draft have smaller ranks than their tasks: the draft has no cycle.
abbrev pub IsRanked : (Str → ℕ) → PlanDraft → Type 0
IsRanked rank draft =
    All (λ d. rank d.depends_on_local_id < rank d.task_local_id) draft.dependencies

draft-IsAcyclic :
    (draft : PlanDraft) (rank : Str → ℕ)
    → IsRanked rank draft
    → IsAcyclic (by_id (draft_tasks_to_plan_tasks draft)) rank
unfolding draft_tasks_to_plan_tasks
draft-IsAcyclic draft rank ranked = record {
  descends = by_id-Each _ draft.dependencies draft.tasks (λ t.
      All-map (λ dep. rank dep < rank t.local_task_id) _
        (prerequisites_of draft.dependencies t.local_task_id) (λ dep smaller other found. smaller)
        (prerequisites_of-All (λ id dep. rank dep < rank id) draft.dependencies t.local_task_id
          ranked));
}

-- In the dependency view of a draft without a cycle, a task that the draft makes wait for another
-- one stands in a later layer than it, where the two ids name these tasks.
pub draft-order :
    (draft : PlanDraft) (rank : Str → ℕ) (layers : Layers) (i j : ℕ) (t u : PlanDraftTask)
    (d : PlanDraftDependency)
    → IsRanked rank draft
    → layout_dag (draft_tasks_to_plan_tasks draft) ≡ some layers
    → In (plan_task draft.dependencies t) (layer_at layers i)
    → In (plan_task draft.dependencies u) (layer_at layers j)
    → get (by_id (draft_tasks_to_plan_tasks draft)) t.local_task_id
      ≡ some (plan_task draft.dependencies t)
    → get (by_id (draft_tasks_to_plan_tasks draft)) u.local_task_id
      ≡ some (plan_task draft.dependencies u)
    → In d draft.dependencies
    → d.task_local_id ≡ t.local_task_id
    → d.depends_on_local_id ≡ u.local_task_id
    → j < i
draft-order draft rank layers i j t u d ranked laid_out at_i at_j t_found u_found m waits waited =
    layout_dag-order (draft_tasks_to_plan_tasks draft) rank (draft-IsAcyclic draft rank ranked)
      layers laid_out i j (plan_task draft.dependencies t) (plan_task draft.dependencies u) at_i
      at_j t_found u_found
      ((prerequisites_of_iff draft.dependencies t.local_task_id u.local_task_id).1
        (d, m, waits, waited))
