-- ===== src/PlanForms/Sent.antt =====
-- What the forms of the plans send.
use mcp_project_server.Prelude.{
  if-cases, ◌≡◌, ◌≢◌, refl, true, Bool-cases, ◌⊎◌, inl, inr, false, Option, none, some, [], arith,
  ◌&&◌, ◌||◌, if◌then◌else◌, not, if-cases,
}
use mcp_project_server.Js.Str.{Str, str_eq, str_eq_iff, trim}
use mcp_project_server.Js.Trim.{IsTrimmed, trim-IsTrimmed}
use mcp_project_server.Api.Plans.{Plan, CreatePlanInput}
use mcp_project_server.PlanForms.{
  type_task_title, type_local_id, type_draft_goal, type_draft_title, is_none, not, edited,
  type_draft_title, type_draft_goal, type_local_id, type_task_title, type_objective, choose_from,
  choose_on, run_lifecycle, plan_changed, start_edit, cancel_edit, updated, toggle_ready,
  toggle_add_task, task_added, dependency_added, save_edit, submit_task, submit_dependency,
  PlansPage, Outcome, nothing, requested, is_blank, create_plan, DetailForms, DetailEvent,
  PlanRequest, update_plan, add_plan_task, add_task_dependency, change_status, changed, save,
  add_task, add_dependency, handle_detail,
}

-- A text without blanks at its ends that is not empty.
unfoldable pub IsGiven : Str → Type 0
IsGiven s = (s ≢ []) × IsTrimmed s

pub trim-IsGiven : (s : Str) → is_blank s ≡ false → IsGiven (trim s)
unfolding IsGiven is_blank
trim-IsGiven s given = (λ e. absurd (ground (arith, str_eq_iff (trim s) [])), trim-IsTrimmed s)

-- A text that may be left out: given, where it is there.
unfoldable pub IsChange : Option Str → Type 0
IsChange none = Unit {0}
IsChange (some text) = IsGiven text

-- What is sent of a typed text.
unfoldable pub IsSentOf : (typed sent : Str) → Type 0
IsSentOf typed sent = (sent ≡ trim typed) × IsGiven sent

trim-IsSentOf : (s : Str) → is_blank s ≡ false → IsSentOf s (trim s)
unfolding IsSentOf
trim-IsSentOf s given = (refl, trim-IsGiven s given)

-- A text of the update is sent if it was typed and is not the plan's; it is left out if it is
-- blank or the plan's.
unfoldable pub IsChangeOf : (draft current : Str) → Option Str → Type 0
IsChangeOf draft current none = (is_blank draft ≡ true) ⊎ (draft ≡ current)
IsChangeOf draft current (some text) = IsSentOf draft text × (draft ≢ current)

ne_of : (s t : Str) → str_eq s t ≡ false → s ≢ t
ne_of s t f e = absurd (ground (arith, str_eq_iff s t))

-- What a request of a plan's forms may hold.
module _ (plan : Plan) (forms : DetailForms) where
  unfoldable pub IsFit : PlanRequest → Type 0
  IsFit (update_plan input) =
      IsChangeOf forms.draft_title plan.title input.title
      × IsChangeOf forms.draft_goal plan.goal input.goal
      × ((input.title ≢ none) ⊎ (input.goal ≢ none))
  IsFit (add_plan_task input) =
      IsSentOf forms.task_local_id input.local_task_id
      × IsSentOf forms.task_title input.title
      × IsSentOf forms.task_objective input.objective
  IsFit (add_task_dependency input) =
      (input.task_id ≡ forms.dep_from)
      × (input.depends_on_task_id ≡ forms.dep_on)
      × (input.task_id ≢ [])
      × (input.depends_on_task_id ≢ [])
      × (input.task_id ≢ input.depends_on_task_id)
  IsFit (change_status _) = Unit {0}

  unfoldable pub IsFitOutcome : Outcome PlanRequest → Type 0
  IsFitOutcome (requested request) = IsFit request
  IsFitOutcome _ = Unit {0}

changed-IsChangeOf : (draft current : Str) → IsChangeOf draft current (changed draft current)
unfolding IsChangeOf changed
changed-IsChangeOf draft current =
    if-cases (IsChangeOf draft current) (not (is_blank draft) && not (str_eq draft current))
      (λ t. (trim-IsSentOf draft (ground arith), ne_of draft current (ground arith)))
      (λ f. elim (Bool-cases (is_blank draft)) [
        | inl blank ↦ inl blank
        | inr typed ↦ inr ((str_eq_iff draft current).0 (ground arith))
      ])

abbrev outcome_of :
    (closed forms : DetailForms) (title goal : Option Str) → DetailForms × Outcome PlanRequest
outcome_of closed forms title goal =
    if is_none title && is_none goal
    then (closed, nothing)
    else (forms, requested (update_plan (record { title = title; goal = goal })))

outcome_of-IsFit :
    (plan : Plan) (closed forms : DetailForms) (title goal : Option Str)
    → IsChangeOf forms.draft_title plan.title title
    → IsChangeOf forms.draft_goal plan.goal goal
    → IsFitOutcome plan forms (outcome_of closed forms title goal).1
unfolding IsFitOutcome IsFit
outcome_of-IsFit plan closed forms none none t g = tt
outcome_of-IsFit plan closed forms (some title) goal t g = (t, g, inl (λ e. absurd (cc)))
outcome_of-IsFit plan closed forms none (some goal) t g = (t, g, inr (λ e. absurd (cc)))

save-IsFit : (plan : Plan) (forms : DetailForms) → IsFitOutcome plan forms (save forms plan).1
unfolding save edited
save-IsFit plan forms =
    outcome_of-IsFit plan (record forms { editing = false }) forms
      (changed forms.draft_title plan.title) (changed forms.draft_goal plan.goal)
      (changed-IsChangeOf forms.draft_title plan.title)
      (changed-IsChangeOf forms.draft_goal plan.goal)

add_task-IsFit : (plan : Plan) (forms : DetailForms) → IsFitOutcome plan forms (add_task forms)
unfolding IsFitOutcome add_task IsFit
add_task-IsFit plan forms =
    if-cases (IsFitOutcome plan forms)
      (is_blank forms.task_local_id || is_blank forms.task_title || is_blank forms.task_objective)
      (λ t. tt)
      (λ f. (
        trim-IsSentOf forms.task_local_id (ground arith),
        trim-IsSentOf forms.task_title (ground arith),
        trim-IsSentOf forms.task_objective (ground arith),
      ))

add_dependency-IsFit :
    (plan : Plan) (forms : DetailForms) → IsFitOutcome plan forms (add_dependency forms)
unfolding IsFitOutcome add_dependency IsFit
add_dependency-IsFit plan forms =
    if-cases (IsFitOutcome plan forms) (str_eq forms.dep_from [] || str_eq forms.dep_on [])
      (λ t. tt)
      (λ f.
        if-cases (IsFitOutcome plan forms) (str_eq forms.dep_from forms.dep_on) (λ t. tt)
          (λ g. (
            refl,
            refl,
            ne_of forms.dep_from [] (ground arith),
            ne_of forms.dep_on [] (ground arith),
            ne_of forms.dep_from forms.dep_on g,
          )))

-- Whatever happens in the forms of a plan, a call that they make is fit. An update gives a title or
-- a goal; it gives one of them exactly if the text typed for it is neither blank nor, as it stands
-- before it is trimmed, the plan's. What it gives, like the local id, the title and the objective
-- of a new task, is the typed text trimmed, and is not empty. A dependency is from the task chosen
-- to the task it is to depend on, which are two different ones.
pub handle_detail-IsFit :
    (plan : Plan) (forms : DetailForms) (event : DetailEvent)
    → IsFitOutcome plan forms (handle_detail plan forms event).1
unfolding IsFitOutcome handle_detail IsFit
handle_detail-IsFit plan forms plan_changed = tt
handle_detail-IsFit plan forms start_edit = tt
handle_detail-IsFit plan forms cancel_edit = tt
handle_detail-IsFit plan forms updated = tt
handle_detail-IsFit plan forms toggle_ready = tt
handle_detail-IsFit plan forms toggle_add_task = tt
handle_detail-IsFit plan forms task_added = tt
handle_detail-IsFit plan forms dependency_added = tt
handle_detail-IsFit plan forms (type_draft_title _) = tt
handle_detail-IsFit plan forms (type_draft_goal _) = tt
handle_detail-IsFit plan forms (type_local_id _) = tt
handle_detail-IsFit plan forms (type_task_title _) = tt
handle_detail-IsFit plan forms (type_objective _) = tt
handle_detail-IsFit plan forms (choose_from _) = tt
handle_detail-IsFit plan forms (choose_on _) = tt
handle_detail-IsFit plan forms (run_lifecycle _) = tt
handle_detail-IsFit plan forms save_edit = save-IsFit plan forms
handle_detail-IsFit plan forms submit_task = add_task-IsFit plan forms
handle_detail-IsFit plan forms submit_dependency = add_dependency-IsFit plan forms

-- What the form of a new plan sends: a title and a goal that are given.
abbrev pub IsFitPlan : Outcome CreatePlanInput → Type 0
IsFitPlan (requested input) = IsGiven input.title × IsGiven input.goal
IsFitPlan _ = Unit {0}

-- The form of a new plan calls the server only with a title and a goal that are not empty and
-- stand without blanks at their ends.
pub create_plan-IsFitPlan : (page : PlansPage) → IsFitPlan (create_plan page)
unfolding create_plan
create_plan-IsFitPlan page =
    if-cases IsFitPlan (is_blank page.new_title || is_blank page.new_goal) (λ t. tt)
      (λ f. (trim-IsGiven page.new_title (ground arith), trim-IsGiven page.new_goal (ground arith)))
