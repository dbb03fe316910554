-- ===== src/PlanTasks/Dag/Total.antt =====
-- The fuel of `layoutDag` suffices, whatever the dependencies are: also on cycles, on unknown
-- prerequisites and on repeated ids.
use Prim.Native.Nat.{max}
use mcp_project_server.Prelude.{
  length-map, if-both, ℕ, zero, suc, ◌+◌, ◌≤◌, ◌<◌, ◌≡◌, refl, inl, inr, true, false, ◌||◌, Option,
  none, some, List, [], ◌∷◌, map, length, length-append, All, All-append, Bool-cases, Option-cases,
  arith,
}
use mcp_project_server.Js.Str.{Str}
use mcp_project_server.Js.Set.{has, add, Distinct, add-Distinct, length-le_of_subset}
use mcp_project_server.Js.Map.{Map, get, keys, has-keys, length-keys-from_entries}
use mcp_project_server.Api.Plans.{PlanTask}
use mcp_project_server.PlanTasks.{by_id}
use mcp_project_server.PlanTasks.Dag.{
  Depth, Layers, is_empty, visit_known, longest, depth_of, depth, push_at, place, layout_dag,
}

-- A result is there.
abbrev IsDone {ℓ} : {A : Type ℓ} → Option A → Type ℓ
IsDone {A} o = (a : A) × (o ≡ some a)

visit_known_total :
    (visit : Str → Map ℕ → Depth)
    → ((dep : Str) (memo : Map ℕ) → IsDone (visit dep memo))
    → (o : Option PlanTask) (dep : Str) (memo : Map ℕ) → IsDone (visit_known visit o dep memo)
visit_known_total visit total none dep memo = (_, refl)
visit_known_total visit total (some t) dep memo = total dep memo

module _ (tasks_by_id : Map PlanTask) where
  longest_total :
      (visit : Str → Map ℕ → Depth)
      → ((dep : Str) (memo : Map ℕ) → IsDone (visit dep memo))
      → (deps : List Str) (best : ℕ) (memo : Map ℕ)
      → IsDone (longest tasks_by_id visit deps best memo)
  unfolding longest
  longest_total visit total [] best memo = (_, refl)
  longest_total visit total (dep ∷ deps) best memo =
      let ((d, memo'), e) = visit_known_total visit total (get tasks_by_id dep) dep memo in
      rw e (longest_total visit total deps (max best d) memo')

  -- A path of visited tasks of the plan.
  record IsPath (path : List Str) : Type 0 where
    distinct : Distinct path
    known : All (λ id. has (keys tasks_by_id) id ≡ true) path

  IsPath-add :
      (path : List Str) (id : Str) (task : PlanTask)
      → get tasks_by_id id ≡ some task
      → IsPath path
      → IsPath (add path id)
  unfolding add
  IsPath-add path id task found h = record {
    distinct = add-Distinct path id h.distinct;
    known =
        if-both (All (λ k. has (keys tasks_by_id) k ≡ true)) (has path id) h.known
          (All-append _ path (id ∷ []) h.known (has-keys tasks_by_id id task found, tt));
  }

  length-add :
      (path : List Str) (id : Str) → has path id ≡ false → length (add path id) ≡ suc (length path)
  unfolding add
  length-add path id out = rw out (omega (arith, length-append path (id ∷ [])))

  depth_of_total :
      (visit : List Str → Str → Map ℕ → Depth) (id : Str) (path : List Str) (memo : Map ℕ)
      (o : Option PlanTask)
      → (has path id ≡ false → (dep : Str) (memo : Map ℕ) → IsDone (visit (add path id) dep memo))
      → IsDone (depth_of tasks_by_id visit id path memo o)
  unfolding depth_of
  depth_of_total visit id path memo none total = (_, refl)
  depth_of_total visit id path memo (some task) total =
      elim (Bool-cases (is_empty task.dependencies || has path id)) [
        | inl stop ↦ rw stop (_, refl)
        | inr go ↦
            let ((best, memo'), e) =
              longest_total (visit (add path id)) (total (ground arith)) task.dependencies 0 memo in
            rw (go, e) (_, refl)
      ]

  depth_total :
      (fuel : ℕ) (path : List Str) (id : Str) (memo : Map ℕ)
      → IsPath path
      → length (keys tasks_by_id) < fuel + length path
      → IsDone (depth tasks_by_id fuel path id memo)
  unfolding depth
  depth_total zero path id memo h room =
      absurd (omega (arith, length-le_of_subset path (keys tasks_by_id) h.distinct h.known))
  depth_total (suc fuel) path id memo h room = elim (Option-cases (get memo id)) [
    | inr (d, cached) ↦ rw cached (_, refl)
    | inl fresh ↦ elim (Option-cases (get tasks_by_id id)) [
      | inl unknown ↦ rw (fresh, unknown) (unfold depth_of in (_, refl))
      | inr (task, found) ↦
          rw (fresh, found)
            (depth_of_total (depth tasks_by_id fuel) id path memo (some task) (λ out dep m.
              depth_total fuel (add path id) dep m (IsPath-add path id task found h)
                (omega (arith, length-add path id out))))
    ]
  ]

  place_total :
      (fuel : ℕ) (tasks : List PlanTask) (layers : Layers) (memo : Map ℕ)
      → length (keys tasks_by_id) < fuel
      → IsDone (place tasks_by_id fuel tasks layers memo)
  unfolding place
  place_total fuel [] layers memo room = (_, refl)
  place_total fuel (task ∷ tasks) layers memo room =
      let ((d, memo'), e) =
        depth_total fuel [] task.id memo (record { distinct = tt; known = tt }) (omega arith) in
      rw e (place_total fuel tasks (push_at d task layers) memo' room)

length-keys-by_id : (tasks : List PlanTask) → length (keys (by_id tasks)) ≤ length tasks
unfolding by_id
length-keys-by_id tasks = omega (
  arith,
  length-keys-from_entries (map (λ (t : PlanTask). (t.id, t)) tasks),
  length-map {B = Str × PlanTask} tasks (λ (t : PlanTask). (t.id, t)),
)

-- `layoutDag` terminates on every list of tasks: the fuel does not run out.
pub layout_dag_total :
    (tasks : List PlanTask) → (layers : Layers) × (layout_dag tasks ≡ some layers)
unfolding layout_dag
layout_dag_total tasks =
    place_total (by_id tasks) (suc (length tasks)) tasks [] []
      (omega (arith, length-keys-by_id tasks))
