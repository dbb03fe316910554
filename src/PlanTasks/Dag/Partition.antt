-- ===== src/PlanTasks/Dag/Partition.antt =====
-- The layers hold every task once.
use mathlib.Core.List.{Perm, perm_middle}
use mathlib.Core.List.Perm
use mcp_project_server.Prelude.{
  subst, ℕ, zero, suc, ◌≡◌, none, some, List, [], ◌∷◌, ◌++◌, append-nil, append_assoc,
}
use mcp_project_server.Js.Map.{Map}
use mcp_project_server.Api.Plans.{PlanTask}
use mcp_project_server.PlanTasks.Dag.{
  Layers, push_at, place, layout_dag, tasks_of, tasks_in, depth, >>=-eq-some,
}

push_at-perm :
    (d : ℕ) (task : PlanTask) (layers : Layers)
    → Perm (tasks_in (push_at d task layers)) (task ∷ tasks_in layers)
unfolding push_at
push_at-perm zero task [] = Perm.refl _
push_at-perm zero task (none ∷ layers) = Perm.refl _
push_at-perm zero task (some layer ∷ layers) =
    rw (append_assoc layer (task ∷ []) (tasks_in layers)) (perm_middle layer (tasks_in layers))
push_at-perm (suc d) task [] = push_at-perm d task []
push_at-perm (suc d) task (layer ∷ layers) =
    Perm.trans (Perm.append_left (tasks_of layer) (push_at-perm d task layers))
      (perm_middle (tasks_of layer) (tasks_in layers))

pub some-injective_lem : {a b : Layers} → some a ≡ some b → a ≡ b
some-injective_lem e = cc

place-perm :
    (tasks_by_id : Map PlanTask) (fuel : ℕ) (tasks : List PlanTask) (layers out : Layers)
    (memo : Map ℕ)
    → place tasks_by_id fuel tasks layers memo ≡ some out
    → Perm (tasks_in out) (tasks ++ tasks_in layers)
unfolding place
place-perm tasks_by_id fuel [] layers out memo e =
    subst (λ (l : Layers). Perm (tasks_in l) (tasks_in layers)) (some-injective_lem e) (Perm.refl _)
place-perm tasks_by_id fuel (task ∷ tasks) layers out memo e =
    let ((d, memo'), _, rest) = >>=-eq-some (depth tasks_by_id fuel [] task.id memo) _ e in
    Perm.trans (place-perm tasks_by_id fuel tasks (push_at d task layers) out memo' rest) (
      Perm.trans (Perm.append_left tasks (push_at-perm d task layers))
        (perm_middle tasks (tasks_in layers)))

-- The layers are a rearrangement of the tasks: none is lost, none is repeated.
pub layout_dag-perm :
    (tasks : List PlanTask) (layers : Layers)
    → layout_dag tasks ≡ some layers
    → Perm (tasks_in layers) tasks
unfolding layout_dag
layout_dag-perm tasks layers e = rw (← append-nil tasks) (place-perm _ _ tasks [] layers [] e)
