-- ===== src/PlanTasks/Dag/Layers.antt =====
-- On an acyclic plan a task's layer is the length of its longest chain of prerequisites.
use Prim.Native.Nat.{max}
use mcp_project_server.Prelude.{
  All-append, if-both, sym, Bool-cases, All-map, refl, subst, inr, inl, ◌∙◌, arith, Option-cases,
  ap, ℕ, zero, suc, ◌<◌, ◌≡◌, Option, none, some, List, [], ◌∷◌, All, if◌then◌else◌,
}
use mcp_project_server.Js.Str.{str_eq_iff, str_eq, Str}
use mcp_project_server.Js.Set.{has, add}
use mcp_project_server.Js.Map.{put-Each, Map, get, Each, Each-get}
use mcp_project_server.Api.Plans.{PlanTask}
use mcp_project_server.PlanTasks.Dag.{false, add, depth, depth_of, Depth, longest, is_empty}

abbrev pub known_depth : (Str → ℕ) → Option PlanTask → Str → ℕ
known_depth below none dep = 0
known_depth below (some _) dep = below dep

module _ (tasks_by_id : Map PlanTask) where
  abbrev pub longest_below : (Str → ℕ) → List Str → ℕ
  longest_below below [] = 0
  longest_below below (dep ∷ deps) =
      max (known_depth below (get tasks_by_id dep) dep) (longest_below below deps)

  abbrev pub chain_of : (Str → ℕ) → Option PlanTask → ℕ
  chain_of below none = 0
  chain_of below (some task) =
      if is_empty task.dependencies then 0 else suc (longest_below below task.dependencies)

  -- The longest chain of prerequisites of a task, followed at most `bound` tasks far.
  unfoldable pub chain_depth : ℕ → Str → ℕ
  chain_depth zero id = 0
  chain_depth (suc bound) id = chain_of (chain_depth bound) (get tasks_by_id id)

  -- Every prerequisite in the plan has a smaller rank than its task: the plan has no cycle.
  pub record IsAcyclic (rank : Str → ℕ) : Type 0 where
    pub descends :
        Each
          (λ id task.
            All
              (λ dep. (t : PlanTask) → get tasks_by_id dep ≡ some t → rank dep < rank id)
              task.dependencies)
          tasks_by_id

  module _ (rank : Str → ℕ) (acyclic : IsAcyclic rank) where
    abbrev pub Below : ℕ → List Str → Type 0
    Below r deps = All (λ dep. (t : PlanTask) → get tasks_by_id dep ≡ some t → rank dep < r) deps

    deps-Below :
        (id : Str) (task : PlanTask)
        → get tasks_by_id id ≡ some task
        → Below (rank id) task.dependencies
    deps-Below id task found = Each-get _ tasks_by_id id task acyclic.descends found

    longest_below-stable :
        (f g : Str → ℕ) (r : ℕ) (deps : List Str)
        → Below r deps
        → ((dep : Str) → rank dep < r → f dep ≡ g dep)
        → longest_below f deps ≡ longest_below g deps
    longest_below-stable f g r [] h same = refl
    longest_below-stable f g r (dep ∷ deps) (lower, h) same =
        elim (Option-cases (get tasks_by_id dep)) [
          | inl unknown ↦
              rw unknown (ap (λ (n : ℕ). max 0 n) (longest_below-stable f g r deps h same))
          | inr (t, found) ↦
              rw (found, same dep (lower t found))
                (ap (λ (n : ℕ). max (g dep) n) (longest_below-stable f g r deps h same))
        ]

    chain_depth-stable :
        (m n : ℕ) (id : Str) → rank id < m → rank id < n → chain_depth m id ≡ chain_depth n id
    unfolding chain_depth
    chain_depth-stable zero n id l k = absurd (omega arith)
    chain_depth-stable (suc m) zero id l k = absurd (omega arith)
    chain_depth-stable (suc m) (suc n) id l k = elim (Option-cases (get tasks_by_id id)) [
      | inl unknown ↦ rw unknown refl
      | inr (task, found) ↦ rw found (
          ap (λ (n : ℕ). if is_empty task.dependencies then 0 else suc n)
            (longest_below-stable (chain_depth m) (chain_depth n) (rank id) task.dependencies
              (deps-Below id task found)
              (λ dep lower. chain_depth-stable m n dep (omega arith) (omega arith))))
    ]

    -- The longest chain of prerequisites.
    abbrev pub level : Str → ℕ
    level id = chain_depth (suc (rank id)) id

    level_step :
        (id : Str) (task : PlanTask)
        → get tasks_by_id id ≡ some task
        → level id ≡ chain_of (chain_depth (rank id)) (some task)
    unfolding chain_depth
    level_step id task found = ap (chain_of (chain_depth (rank id))) found

    pub level_lem :
        (id : Str) (task : PlanTask)
        → get tasks_by_id id ≡ some task
        → level id ≡ chain_of level (some task)
    level_lem id task found =
        level_step id task found
        ∙ ap (λ (n : ℕ). if is_empty task.dependencies then 0 else suc n)
            (longest_below-stable (chain_depth (rank id)) level (rank id) task.dependencies
              (deps-Below id task found)
              (λ dep lower. chain_depth-stable (rank id) (suc (rank dep)) dep lower (omega arith)))

    -- The memo holds levels.
    abbrev pub IsGood : Map ℕ → Type 0
    IsGood memo = Each (λ id d. d ≡ level id) memo

    abbrev pub IsLevel : Str → Depth → Type 0
    IsLevel id none = Unit
    IsLevel id (some (d, memo)) = (d ≡ level id) × IsGood memo

    abbrev IsBest : ℕ → Depth → Type 0
    IsBest best none = Unit
    IsBest best (some (d, memo)) = (d ≡ best) × IsGood memo

    longest-level :
        (visit : Str → Map ℕ → Depth) (r : ℕ)
        → ((dep : Str) (memo : Map ℕ) → rank dep < r → IsGood memo → IsLevel dep (visit dep memo))
        → (deps : List Str) (best : ℕ) (memo : Map ℕ) → Below r deps
        → IsGood memo
        → IsBest (max best (longest_below level deps)) (longest tasks_by_id visit deps best memo)
    unfolding longest
    longest-level visit r ok [] best memo h good = (omega arith, good)
    longest-level visit r ok (dep ∷ deps) best memo (lower, h) good =
        elim (Option-cases (get tasks_by_id dep)) [
          | inl unknown ↦
              let regroup : max (max best 0) rest ≡ max best (max 0 rest) = omega arith in
              rw unknown (
                subst (λ (n : ℕ). IsBest n (longest tasks_by_id visit deps (max best 0) memo))
                  regroup (longest-level visit r ok deps (max best 0) memo h good))
          | inr (t, found) ↦ elim (Option-cases (visit dep memo)) [
            | inl stuck ↦ rw (found, stuck) tt
            | inr ((d, memo'), e) ↦
                let (same, good') = subst (IsLevel dep) e (ok dep memo (lower t found) good) in
                let regroup : max (max best d) rest ≡ max best (max (level dep) rest) =
                  omega arith in
                rw (found, e)
                  (subst (λ (n : ℕ). IsBest n (longest tasks_by_id visit deps (max best d) memo'))
                    regroup (longest-level visit r ok deps (max best d) memo' h good'))
          ]
        ]
      where
        rest : ℕ
        rest = longest_below level deps

    -- No task is met again on the path that led to it.
    has-above :
        (path : List Str) (id : Str) → All (λ p. rank id < rank p) path → has path id ≡ false
    unfolding has
    has-above [] id h = refl
    has-above (p ∷ path) id (l, h) = elim (Bool-cases (str_eq p id)) [
      | inl same ↦ let e : p ≡ id = (str_eq_iff p id).0 same in absurd (omega (arith, ap rank e))
      | inr other ↦ rw other (has-above path id h)
    ]

    depth_of-IsLevel :
        (visit : List Str → Str → Map ℕ → Depth) (id : Str) (path : List Str) (memo : Map ℕ)
        (task : PlanTask)
        → get tasks_by_id id ≡ some task
        → All (λ p. rank id < rank p) path
        → ((dep : Str) (m : Map ℕ)
            → rank dep < rank id
            → IsGood m
            → IsLevel dep (visit (add path id) dep m))
        → IsGood memo
        → IsLevel id (depth_of tasks_by_id visit id path memo (some task))
    unfolding depth_of
    depth_of-IsLevel visit id path memo task found above ok good =
        elim (Bool-cases (is_empty task.dependencies)) [
          | inl root ↦
              let zero_level : 0 ≡ level id = sym (level_lem id task found ∙ rw root refl) in
              rw root (zero_level, put-Each _ memo id 0 zero_level good)
          | inr inner ↦
              let best = longest_below level task.dependencies in
              let at_level : suc best ≡ level id = sym (level_lem id task found ∙ rw inner refl) in
              elim (Option-cases
                (longest tasks_by_id (visit (add path id)) task.dependencies 0 memo)) [
                  | inl stuck ↦ rw (inner, has-above path id above, stuck) tt
                  | inr ((d, memo'), e) ↦
                      let (same, good') = subst (IsBest (max 0 best)) e (
                        longest-level (visit (add path id)) (rank id) ok task.dependencies 0 memo
                          (deps-Below id task found) good) in
                      let here : suc d ≡ level id = omega arith in
                      rw (inner, has-above path id above, e)
                        (here, put-Each _ memo' id (suc d) here good')
                ]
        ]

    level_unknown : (id : Str) → get tasks_by_id id ≡ none → 0 ≡ level id
    unfolding chain_depth
    level_unknown id unknown = rw unknown refl

    above-add :
        (path : List Str) (id dep : Str)
        → All (λ p. rank id < rank p) path
        → rank dep < rank id
        → All (λ p. rank dep < rank p) (add path id)
    unfolding add
    above-add path id dep above lower =
        let higher : All (λ p. rank dep < rank p) path =
          All-map (λ p. rank id < rank p) (λ p. rank dep < rank p) path (λ p l. omega arith)
            above in
        if-both (All (λ p. rank dep < rank p)) (has path id) higher
          (All-append _ path (id ∷ []) higher (lower, tt))

    pub depth-IsLevel :
        (fuel : ℕ) (path : List Str) (id : Str) (memo : Map ℕ)
        → All (λ p. rank id < rank p) path
        → IsGood memo
        → IsLevel id (depth tasks_by_id fuel path id memo)
    unfolding depth
    depth-IsLevel zero path id memo above good = tt
    depth-IsLevel (suc fuel) path id memo above good = elim (Option-cases (get memo id)) [
      | inr (d, cached) ↦ rw cached (Each-get _ memo id d good cached, good)
      | inl fresh ↦ elim (Option-cases (get tasks_by_id id)) [
        | inl unknown ↦
            let zero_level : 0 ≡ level id = level_unknown id unknown in
            rw (fresh, unknown)
              (unfold depth_of in (zero_level, put-Each _ memo id 0 zero_level good))
        | inr (task, found) ↦
            rw (fresh, found)
              (depth_of-IsLevel (depth tasks_by_id fuel) id path memo task found above
                (λ dep m lower good'.
                  depth-IsLevel fuel (add path id) dep m (above-add path id dep above lower) good')
                good)
      ]
    ]
