-- ===== src/PlanTasks/Dag.antt =====
-- `layoutDag` of planTasks.ts: the layers of the dependency view. The recursion of `depth` takes
-- fuel, with `none` when it runs out; `memo` is passed along. An entry of the sparse array `layers`
-- that was never assigned is `none`.
pub mod Total
pub mod Layers
pub mod Partition
pub mod Order
pub mod Chains
pub mod View
use Prim.Native.Nat.{max}
use mcp_project_server.Prelude.{
  ◌≡◌, refl, ◌≡◌, ℕ, zero, suc, Bool, true, false, ◌||◌, Option, none, some, List, [], ◌∷◌, ◌++◌,
  length, if◌then◌else◌,
}
use mcp_project_server.Js.Str.{Str}
use mcp_project_server.Js.Set.{has, add}
use mcp_project_server.Js.Map.{Map, get, put}
use mcp_project_server.Api.Plans.{PlanTask}
use mcp_project_server.PlanTasks.{by_id}

infixl 5 ◌>>=◌
abbrev pub ◌>>=◌ {ℓ κ} : {A : Type ℓ} {B : Type κ} → Option A → (A → Option B) → Option B
none >>= f = none
some a >>= f = f a

pub >>=-eq-some {ℓ κ} :
    {A : Type ℓ} {B : Type κ} (m : Option A) (f : A → Option B) {b : B}
    → (m >>= f) ≡ some b
    → (a : A) × (m ≡ some a) × (f a ≡ some b)
>>=-eq-some none f e = absurd (cc)
>>=-eq-some (some a) f e = (a, refl, e)

-- A depth, and the memo that its computation leaves.
abbrev pub Depth : Type 0
Depth = Option (ℕ × Map ℕ)

abbrev pub is_empty : List Str → Bool
is_empty [] = true
is_empty (_ ∷ _) = false

-- `byId.has(depId) ? depth(depId, nextPath) : 0`
abbrev pub visit_known : (Str → Map ℕ → Depth) → Option PlanTask → Str → Map ℕ → Depth
visit_known visit none dep memo = some (0, memo)
visit_known visit (some _) dep memo = visit dep memo

module _ (tasks_by_id : Map PlanTask) where
  -- The maximum over the prerequisites, in their order.
  unfoldable pub longest : (Str → Map ℕ → Depth) → List Str → ℕ → Map ℕ → Depth
  longest visit [] best memo = some (best, memo)
  longest visit (dep ∷ deps) best memo = do
    (d, memo') ← visit_known visit (get tasks_by_id dep) dep memo
    longest visit deps (max best d) memo'

  abbrev store : Str → ℕ → Map ℕ → Depth
  store id d memo = some (d, put memo id d)

  unfoldable pub depth_of :
      (List Str → Str → Map ℕ → Depth) → Str → List Str → Map ℕ → Option PlanTask → Depth
  depth_of visit id path memo none = store id 0 memo
  depth_of visit id path memo (some task) =
      let below = longest (visit (add path id)) task.dependencies 0 memo in
      if is_empty task.dependencies || has path id
      then store id 0 memo
      else (do (best, memo') ← below; store id (suc best) memo')

  abbrev or_depth : Option ℕ → Map ℕ → Depth → Depth
  or_depth none memo d = d
  or_depth (some cached) memo d = some (cached, memo)

  unfoldable pub depth : ℕ → List Str → Str → Map ℕ → Depth
  depth zero path id memo = none
  depth (suc fuel) path id memo =
      let fresh = depth_of (depth fuel) id path memo (get tasks_by_id id) in
      or_depth (get memo id) memo fresh

abbrev pub Layers : Type 0
Layers = List (Option (List PlanTask))

abbrev pub push : Option (List PlanTask) → PlanTask → List PlanTask
push none task = task ∷ []
push (some layer) task = layer ++ task ∷ []

-- `(layers[d] ??= []).push(task)`
unfoldable pub push_at : ℕ → PlanTask → Layers → Layers
push_at zero task [] = some (task ∷ []) ∷ []
push_at zero task (layer ∷ layers) = some (push layer task) ∷ layers
push_at (suc d) task [] = none ∷ push_at d task []
push_at (suc d) task (layer ∷ layers) = layer ∷ push_at d task layers

unfoldable pub place : Map PlanTask → ℕ → List PlanTask → Layers → Map ℕ → Option Layers
place tasks_by_id fuel [] layers memo = some layers
place tasks_by_id fuel (task ∷ tasks) layers memo = do
  (d, memo') ← depth tasks_by_id fuel [] task.id memo
  place tasks_by_id fuel tasks (push_at d task layers) memo'

-- What a sparse array of layers holds.
abbrev pub tasks_of : Option (List PlanTask) → List PlanTask
tasks_of none = []
tasks_of (some layer) = layer

abbrev pub tasks_in : Layers → List PlanTask
tasks_in [] = []
tasks_in (layer ∷ layers) = tasks_of layer ++ tasks_in layers

abbrev pub layer_at : Layers → ℕ → List PlanTask
layer_at [] i = []
layer_at (layer ∷ layers) zero = tasks_of layer
layer_at (layer ∷ layers) (suc i) = layer_at layers i

-- The fuel is one more than the number of tasks.
unfoldable pub layout_dag : List PlanTask → Option Layers
layout_dag tasks = place (by_id tasks) (suc (length tasks)) tasks [] []
