-- ===== src/PlanTasks/Dag/Chains.antt =====
-- The layers of a plan as the comment of layoutDag describes them: a task without a prerequisite
-- in the plan stands first, and every other one behind its longest chain of them.
use Prim.Native.Nat.{max}
use mcp_project_server.Prelude.{
  In, ℕ, zero, suc, ◌≡◌, refl, ◌∙◌, Bool, true, false, Option, none, some, List, [], ◌∷◌, filter,
  inl, inr, arith, Option-cases, if◌then◌else◌,
}
use mcp_project_server.Js.Str.{Str}
use mcp_project_server.Js.Map.{Map, get, Each, Each-get}
use mcp_project_server.Api.Plans.{PlanTask}
use mcp_project_server.PlanTasks.{by_id}
use mcp_project_server.PlanTasks.Dag.{Layers, is_empty, layout_dag, layer_at}
use mcp_project_server.PlanTasks.Dag.Layers.{IsAcyclic, chain_depth, longest_below}
use mcp_project_server.PlanTasks.Dag.Order.{layout_dag-chain_depth}

abbrev is_some : Option PlanTask → Bool
is_some none = false
is_some (some _) = true

module _ (tasks_by_id : Map PlanTask) where
  -- The prerequisites that are tasks of the plan.
  abbrev pub in_plan : List Str → List Str
  in_plan deps = filter (λ dep. is_some (get tasks_by_id dep)) deps

  abbrev pub longest_of : (Str → ℕ) → List Str → ℕ
  longest_of below [] = 0
  longest_of below (dep ∷ deps) = max (below dep) (longest_of below deps)

  abbrev pub in_plan_of : (Str → ℕ) → Option PlanTask → ℕ
  in_plan_of below none = 0
  in_plan_of below (some task) =
      if is_empty (in_plan task.dependencies)
      then 0
      else suc (longest_of below (in_plan task.dependencies))

  -- The longest chain of prerequisites in the plan, followed at most `bound` tasks far.
  pub in_plan_depth : ℕ → Str → ℕ
  in_plan_depth zero id = 0
  in_plan_depth (suc bound) id = in_plan_of (in_plan_depth bound) (get tasks_by_id id)

  -- A task that has prerequisites has one in the plan.
  pub record IsRooted : Type 0 where
    pub known :
        Each
          (λ id task. is_empty (in_plan task.dependencies) ≡ is_empty task.dependencies)
          tasks_by_id

  longest_in_plan :
      (f g : Str → ℕ) (deps : List Str)
      → ((dep : Str) → f dep ≡ g dep)
      → longest_of f (in_plan deps) ≡ longest_below tasks_by_id g deps
  longest_in_plan f g [] same = refl
  longest_in_plan f g (dep ∷ deps) same = elim (Option-cases (get tasks_by_id dep)) [
    | inl missing ↦ rw missing (ground (arith, longest_in_plan f g deps same))
    | inr (t, found) ↦ rw (found, same dep, longest_in_plan f g deps same) refl
  ]

  in_plan_depth-chain_depth :
      IsRooted → (bound : ℕ) (id : Str) → in_plan_depth bound id ≡ chain_depth tasks_by_id bound id
  unfolding in_plan_depth chain_depth
  in_plan_depth-chain_depth rooted zero id = refl
  in_plan_depth-chain_depth rooted (suc bound) id = elim (Option-cases (get tasks_by_id id)) [
    | inl missing ↦ rw missing refl
    | inr (task, found) ↦
        rw
          (
            found,
            Each-get _ tasks_by_id id task rooted.known found,
            longest_in_plan (in_plan_depth bound) (chain_depth tasks_by_id bound) task.dependencies
                (in_plan_depth-chain_depth rooted bound),
          )
          refl
  ]

module _ (tasks : List PlanTask) (rank : Str → ℕ) (acyclic : IsAcyclic (by_id tasks) rank)
    (rooted : IsRooted (by_id tasks)) (layers : Layers)
    (laid_out : layout_dag tasks ≡ some layers) where
  -- On an acyclic plan in which every task with prerequisites has one in the plan, a task stands in
  -- the layer of its longest chain of prerequisites in the plan: the first layer is that of the
  -- tasks that have none there.
  pub layout_dag-in_plan_depth :
      (i : ℕ) (task : PlanTask)
      → In task (layer_at layers i)
      → in_plan_depth (by_id tasks) (suc (rank task.id)) task.id ≡ i
  layout_dag-in_plan_depth i task m =
      in_plan_depth-chain_depth (by_id tasks) rooted (suc (rank task.id)) task.id
      ∙ layout_dag-chain_depth tasks rank acyclic layers laid_out i task m
