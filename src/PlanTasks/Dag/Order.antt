-- ===== src/PlanTasks/Dag/Order.antt =====
-- The layers of an acyclic plan: each task at the length of its longest chain of prerequisites,
-- so behind every one of them.
use mcp_project_server.Prelude.{
  if◌then◌else◌, All-append, ℕ, zero, suc, ◌+◌, ◌≤◌, ◌<◌, ◌≡◌, refl, ◌∙◌, ap, subst, inl, inr, none,
  some, List, [], ◌∷◌, All, All-In, In, arith,
}
use mcp_project_server.Js.Str.{Str}
use mcp_project_server.Js.Map.{Map, get}
use mcp_project_server.Api.Plans.{PlanTask}
use mcp_project_server.PlanTasks.{Bool, false, by_id}
use mcp_project_server.PlanTasks.Dag.{
  length, >>=-eq-some, Layers, is_empty, depth, push_at, place, layout_dag, tasks_of, layer_at,
}
use mcp_project_server.PlanTasks.Dag.Partition.{some-injective_lem}
use mcp_project_server.PlanTasks.Dag.Layers.{
  chain_depth, longest_below, IsAcyclic, level, level_lem, IsGood, IsLevel, depth-IsLevel,
}

module _ (level_of : Str → ℕ) where
  -- The layers from number `i` on hold tasks of these levels.
  abbrev Placed : ℕ → Layers → Type 0
  Placed i [] = Unit
  Placed i (layer ∷ layers) = All (λ t. level_of t.id ≡ i) (tasks_of layer) × Placed (suc i) layers

  push_at-Placed :
      (d i : ℕ) (task : PlanTask) (layers : Layers)
      → level_of task.id ≡ i + d
      → Placed i layers
      → Placed i (push_at d task layers)
  unfolding push_at
  push_at-Placed zero i task [] e h = ((omega arith, tt), tt)
  push_at-Placed zero i task (none ∷ layers) e h = ((omega arith, tt), h.1)
  push_at-Placed zero i task (some layer ∷ layers) e h =
      (All-append _ layer (task ∷ []) h.0 (omega arith, tt), h.1)
  push_at-Placed (suc d) i task [] e h = (tt, push_at-Placed d (suc i) task [] (omega arith) tt)
  push_at-Placed (suc d) i task (layer ∷ layers) e h =
      (h.0, push_at-Placed d (suc i) task layers (omega arith) h.1)

  Placed-layer_at :
      (i j : ℕ) (layers : Layers) (task : PlanTask)
      → Placed i layers
      → In task (layer_at layers j)
      → level_of task.id ≡ i + j
  Placed-layer_at i j [] task h m = absurd m
  Placed-layer_at i zero (layer ∷ layers) task h m =
      All-In (λ t. level_of t.id ≡ i) (tasks_of layer) h.0 m ∙ omega arith
  Placed-layer_at i (suc j) (layer ∷ layers) task h m =
      Placed-layer_at (suc i) j layers task h.1 m ∙ omega arith

is_empty_of_In : (deps : List Str) (dep : Str) → In dep deps → is_empty deps ≡ false
is_empty_of_In [] dep m = absurd m
is_empty_of_In (d ∷ deps) dep m = refl

module _ (tasks_by_id : Map PlanTask) (rank : Str → ℕ) (acyclic : IsAcyclic tasks_by_id rank) where
  abbrev at_level : Str → ℕ
  at_level = level tasks_by_id rank acyclic

  place-Placed :
      (fuel : ℕ) (tasks : List PlanTask) (layers out : Layers) (memo : Map ℕ)
      → Placed at_level 0 layers
      → IsGood tasks_by_id rank acyclic memo
      → place tasks_by_id fuel tasks layers memo ≡ some out
      → Placed at_level 0 out
  unfolding place
  place-Placed fuel [] layers out memo h good e = subst (Placed at_level 0) (some-injective_lem e) h
  place-Placed fuel (task ∷ tasks) layers out memo h good e =
      let ((d, memo'), found, rest) = >>=-eq-some (depth tasks_by_id fuel [] task.id memo) _ e in
      let (same, good') =
        subst (IsLevel tasks_by_id rank acyclic task.id) found
          (depth-IsLevel tasks_by_id rank acyclic fuel [] task.id memo tt good) in
      place-Placed fuel tasks (push_at d task layers) out memo'
        (push_at-Placed at_level d 0 task layers (omega arith) h) good' rest

  longest_below-le :
      (deps : List Str) (u : PlanTask)
      → In u.id deps
      → get tasks_by_id u.id ≡ some u
      → at_level u.id ≤ longest_below tasks_by_id at_level deps
  longest_below-le [] u m found = absurd m
  longest_below-le (dep ∷ deps) u (inl same) found =
      let e : get tasks_by_id dep ≡ some u =
        subst (λ (k : Str). get tasks_by_id k ≡ some u) same found in
      rw (e, ← same) (omega arith)
  longest_below-le (dep ∷ deps) u (inr m) found = omega (arith, longest_below-le deps u m found)

  level-lt :
      (t u : PlanTask)
      → get tasks_by_id t.id ≡ some t
      → In u.id t.dependencies
      → get tasks_by_id u.id ≡ some u
      → at_level u.id < at_level t.id
  level-lt t u t_found m u_found =
      let inner : at_level t.id ≡ suc (longest_below tasks_by_id at_level t.dependencies) =
        level_lem tasks_by_id rank acyclic t.id t t_found
        ∙ ap
            (λ (b : Bool). if b then 0 else suc (longest_below tasks_by_id at_level t.dependencies))
            (is_empty_of_In t.dependencies u.id m) in
      omega (arith, inner, longest_below-le t.dependencies u m u_found)

module _ (tasks : List PlanTask) (rank : Str → ℕ) (acyclic : IsAcyclic (by_id tasks) rank)
    (layers : Layers) (laid_out : layout_dag tasks ≡ some layers) where
  -- On an acyclic plan a task stands in the layer of its longest chain of prerequisites.
  pub layout_dag-chain_depth :
      (i : ℕ) (task : PlanTask)
      → In task (layer_at layers i)
      → chain_depth (by_id tasks) (suc (rank task.id)) task.id ≡ i
  unfolding layout_dag
  layout_dag-chain_depth i task m =
      Placed-layer_at _ 0 i layers task
        (place-Placed (by_id tasks) rank acyclic (suc (length tasks)) tasks [] layers [] tt tt
          laid_out)
        m
      ∙ omega arith

  -- On an acyclic plan a prerequisite stands in an earlier layer than the task that waits for it.
  pub layout_dag-order :
      (i j : ℕ) (t u : PlanTask)
      → In t (layer_at layers i)
      → In u (layer_at layers j)
      → get (by_id tasks) t.id ≡ some t
      → get (by_id tasks) u.id ≡ some u
      → In u.id t.dependencies
      → j < i
  layout_dag-order i j t u at_i at_j t_found u_found m = omega (
    arith,
    layout_dag-chain_depth i t at_i,
    layout_dag-chain_depth j u at_j,
    level-lt (by_id tasks) rank acyclic t u t_found m u_found,
  )
