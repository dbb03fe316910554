-- ===== src/PlanTasks/Ready.antt =====
-- The canonical predicate for a ready task, and how leases lapse.
use mcp_project_server.Prelude.{
  ℕ, ◌≤◌, ◌≡◌, refl, ◌↔◌, ◌⊎◌, inl, inr, true, false, Option, none, some, List, [], ◌∷◌, All, In,
  all, filter_sound, filter_complete, arith, Bool-cases, Option-cases,
}
use mcp_project_server.Js.Str.{Str, str_eq}
use mcp_project_server.Js.Map.{Map, get}
use mcp_project_server.Api.Plans.{PlanStatus, TaskStatus, PlanTask}
use mcp_project_server.PlanTasks.{
  active, expired, is_completed, by_id, is_lease_expired, is_reclaimable, lease_state, no_lease,
  is_task_ready, filter_ready_tasks,
}

-- A status that holds a lease.
abbrev pub HoldsLease : TaskStatus → Type 0
HoldsLease s = (s ≡ TaskStatus.claimed) ⊎ (s ≡ TaskStatus.in_progress) ⊎ (s ≡ TaskStatus.in_review)

module _ (get_time : Str → Option ℕ) where
  -- The lease names a valid date that is not after now.
  pub record HasLapsed (lease : Option Str) (now : ℕ) : Type 0 where
    pub text : Str
    pub written : lease ≡ some text
    pub nonempty : str_eq text [] ≡ false
    pub ends : ℕ
    pub date : get_time text ≡ some ends
    pub passed : ends ≤ now

  is_lease_expired_sound :
      (lease : Option Str) (now : ℕ)
      → is_lease_expired get_time lease now ≡ true
      → HasLapsed lease now
  unfolding is_lease_expired
  is_lease_expired_sound none now h = absurd (cc)
  is_lease_expired_sound (some text) now h = elim (Bool-cases (str_eq text [])) [
    | inl empty ↦ absurd (ground arith)
    | inr nonempty ↦ elim (Option-cases (get_time text)) [
      | inl invalid ↦ absurd (ground arith)
      | inr (ends, date) ↦ record {
        text = text;
        written = refl;
        nonempty = nonempty;
        ends = ends;
        date = date;
        passed = ground arith;
      }
    ]
  ]

  is_lease_expired_complete :
      (lease : Option Str) (now : ℕ)
      → HasLapsed lease now
      → is_lease_expired get_time lease now ≡ true
  unfolding is_lease_expired
  is_lease_expired_complete none now h = absurd (ground (arith, h.written))
  is_lease_expired_complete (some text) now h =
      ground (arith, h.written, h.nonempty, h.date, h.passed)

  -- A lease is expired exactly if it names a valid date that is not after now.
  pub is_lease_expired_iff :
      (lease : Option Str) (now : ℕ)
      → (is_lease_expired get_time lease now ≡ true) ↔ HasLapsed lease now
  is_lease_expired_iff lease now =
      (is_lease_expired_sound lease now, is_lease_expired_complete lease now)

  HasLapsed-later :
      (lease : Option Str) (now later : ℕ)
      → now ≤ later
      → HasLapsed lease now
      → HasLapsed lease later
  HasLapsed-later lease now later l h = record {
    text = h.text;
    written = h.written;
    nonempty = h.nonempty;
    ends = h.ends;
    date = h.date;
    passed = omega arith;
  }

  -- The canonical predicate: the plan is active, every prerequisite is a completed task, and the
  -- task is ready or holds a lease that has lapsed.
  pub record IsReady (task : PlanTask) (tasks_by_id : Map PlanTask) (plan : PlanStatus) (now : ℕ)
      : Type 0 where
    pub plan_active : plan ≡ PlanStatus.active
    pub prerequisites :
        All
          (λ dep.
            (t : PlanTask) × (get tasks_by_id dep ≡ some t) × (t.status ≡ TaskStatus.completed))
          task.dependencies
    pub free :
        (task.status ≡ TaskStatus.ready)
        ⊎ (HoldsLease task.status × HasLapsed task.lease_expires_at now)

  abbrev Prerequisites : Map PlanTask → List Str → Type 0
  Prerequisites tasks_by_id deps =
      All
        (λ dep. (t : PlanTask) × (get tasks_by_id dep ≡ some t) × (t.status ≡ TaskStatus.completed))
        deps

  completed_sound :
      (o : Option PlanTask)
      → is_completed o ≡ true
      → (t : PlanTask) × (o ≡ some t) × (t.status ≡ TaskStatus.completed)
  completed_sound none h = absurd (cc)
  completed_sound (some t) h = (t, refl, ground arith)

  all_completed_sound :
      (tasks_by_id : Map PlanTask) (deps : List Str)
      → all (λ dep. is_completed (get tasks_by_id dep)) deps ≡ true
      → Prerequisites tasks_by_id deps
  all_completed_sound tasks_by_id [] h = tt
  all_completed_sound tasks_by_id (dep ∷ deps) h = (
    completed_sound (get tasks_by_id dep) (ground arith),
    all_completed_sound tasks_by_id deps (ground arith),
  )

  all_completed_complete :
      (tasks_by_id : Map PlanTask) (deps : List Str)
      → Prerequisites tasks_by_id deps
      → all (λ dep. is_completed (get tasks_by_id dep)) deps ≡ true
  all_completed_complete tasks_by_id [] h = refl
  all_completed_complete tasks_by_id (dep ∷ deps) ((t, found, done), h) =
      ground (arith, found, done, all_completed_complete tasks_by_id deps h)

  is_reclaimable_sound :
      (task : PlanTask) (now : ℕ)
      → is_reclaimable get_time task now ≡ true
      → HoldsLease task.status × HasLapsed task.lease_expires_at now
  unfolding is_reclaimable
  is_reclaimable_sound task now h =
      (ground arith, is_lease_expired_sound task.lease_expires_at now (ground arith))

  is_reclaimable_complete :
      (task : PlanTask) (now : ℕ)
      → HoldsLease task.status
      → HasLapsed task.lease_expires_at now
      → is_reclaimable get_time task now ≡ true
  unfolding is_reclaimable
  is_reclaimable_complete task now holds h =
      ground (arith, is_lease_expired_complete task.lease_expires_at now h)

  -- Where `isTaskReady` holds, so does the canonical predicate.
  is_task_ready_sound :
      (task : PlanTask) (tasks_by_id : Map PlanTask) (plan : PlanStatus) (now : ℕ)
      → is_task_ready get_time task tasks_by_id plan now ≡ true
      → IsReady task tasks_by_id plan now
  unfolding is_task_ready
  is_task_ready_sound task tasks_by_id plan now h = record {
    plan_active = ground arith;
    prerequisites = all_completed_sound tasks_by_id task.dependencies (ground arith);
    free = elim (Bool-cases (is_reclaimable get_time task now)) [
      | inl held ↦ inr (is_reclaimable_sound task now held)
      | inr other ↦ inl (ground arith)
    ];
  }

  is_task_ready_complete :
      (task : PlanTask) (tasks_by_id : Map PlanTask) (plan : PlanStatus) (now : ℕ)
      → IsReady task tasks_by_id plan now
      → is_task_ready get_time task tasks_by_id plan now ≡ true
  unfolding is_task_ready
  is_task_ready_complete task tasks_by_id plan now h = elim h.free [
    | inl ready ↦ ground (
      arith,
      ready,
      h.plan_active,
      all_completed_complete tasks_by_id task.dependencies h.prerequisites,
    )
    | inr (holds, lapsed) ↦ ground (
      arith,
      holds,
      h.plan_active,
      is_reclaimable_complete task now holds lapsed,
      all_completed_complete tasks_by_id task.dependencies h.prerequisites,
    )
  ]

  -- `isTaskReady` decides the canonical predicate: the plan is active, every prerequisite is a
  -- completed task, and the task is ready or holds a lease that has lapsed.
  pub is_task_ready_iff :
      (task : PlanTask) (tasks_by_id : Map PlanTask) (plan : PlanStatus) (now : ℕ)
      → (is_task_ready get_time task tasks_by_id plan now ≡ true)
        ↔ IsReady task tasks_by_id plan now
  is_task_ready_iff task tasks_by_id plan now = (
    is_task_ready_sound task tasks_by_id plan now,
    is_task_ready_complete task tasks_by_id plan now,
  )

  -- A task that is ready stays ready as time passes, if nothing else changes.
  pub is_task_ready_later :
      (task : PlanTask) (tasks_by_id : Map PlanTask) (plan : PlanStatus) (now later : ℕ)
      → now ≤ later
      → is_task_ready get_time task tasks_by_id plan now ≡ true
      → is_task_ready get_time task tasks_by_id plan later ≡ true
  is_task_ready_later task tasks_by_id plan now later l h =
      let r = is_task_ready_sound task tasks_by_id plan now h in
      is_task_ready_complete task tasks_by_id plan later (record {
        plan_active = r.plan_active;
        prerequisites = r.prerequisites;
        free = elim r.free [
          | inl ready ↦ inl ready
          | inr (holds, lapsed) ↦
              inr (holds, HasLapsed-later task.lease_expires_at now later l lapsed)
        ];
      })

  abbrev pub LeaseAgrees : PlanTask → ℕ → Type 0
  LeaseAgrees task now =
      ((lease_state get_time task now ≡ expired) ↔ (is_reclaimable get_time task now ≡ true))
      × ((lease_state get_time task now ≡ active) ↔ (
          HoldsLease task.status
          × (no_lease get_time task.lease_expires_at ≡ false)
          × (is_reclaimable get_time task now ≡ false)))

  -- A lease is shown as expired exactly if the task can be reclaimed, and as active exactly if the
  -- task's status holds a lease whose date is given and the task cannot be reclaimed.
  pub lease_state-is_reclaimable : (task : PlanTask) (now : ℕ) → LeaseAgrees task now
  unfolding lease_state is_reclaimable is_lease_expired
  lease_state-is_reclaimable task now = (
    (ground arith, ground arith),
    (λ h. (ground arith, ground arith, ground arith), ground arith),
  )

  -- The filter keeps exactly the tasks of the plan that are ready by the canonical predicate.
  pub filter_ready_tasks_iff :
      (tasks : List PlanTask) (plan : PlanStatus) (now : ℕ) (task : PlanTask)
      → In task (filter_ready_tasks get_time tasks plan now)
        ↔ (In task tasks × IsReady task (by_id tasks) plan now)
  unfolding filter_ready_tasks
  filter_ready_tasks_iff tasks plan now task = (
    λ m.
        let (among, ready) = filter_sound _ tasks task m in
        (among, is_task_ready_sound task (by_id tasks) plan now ready),
    λ (among, h).
        filter_complete _ tasks task among (is_task_ready_complete task (by_id tasks) plan now h),
  )
