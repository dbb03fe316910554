-- ===== src/PlanDialogs.antt =====
-- The dialogs of the plans in pcs-control-panel-project/artifacts/pcs-control-panel/src/components/
-- plans: AiPlanDraftModal.tsx, which asks for a drafted plan and creates it after a review, and
-- ClaimModal.tsx, which asks who claims a task and for how long. Moving the focus and closing a
-- dialog, which only unmounts it, are not modelled.
pub mod Review
pub mod Claimed
mod Tests
use mathlib.Core.Option
use mcp_project_server.Prelude.{
  ℕ, Bool, true, false, not, ◌&&◌, ◌||◌, Option, none, some, List, [], ◌∷◌, take, if◌then◌else◌,
}
use mcp_project_server.Js.Str.{Str, codes, str_eq, trim, includes}
use mcp_project_server.Js.Number.{Numbers}
use mcp_project_server.Api.Plans.{
  Plan, PlanDraft, GeneratePlanDraftInput, GeneratePlanDraftResult, CreatePlanWithTasksInput,
  ClaimTaskInput,
}
use mcp_project_server.Drafts.{draft_to_create_plan_with_tasks_input}
use mcp_project_server.Claims.{Panel, submit_claim}
use mcp_project_server.PlanForms.{Outcome, nothing, refused, requested, is_blank}

abbrev pub goal_max_chars : ℕ
goal_max_chars = 4000

abbrev pub constraints_max_chars : ℕ
constraints_max_chars = 2000

abbrev pub max_tasks_min : ℕ
max_tasks_min = 1

abbrev pub max_tasks_max : ℕ
max_tasks_max = 30

pub data Step : Type 0 where
  input preview : Step

-- The state of `AiPlanDraftModal`.
pub record DraftDialog : Type 0 where
  pub step : Step
  pub goal : Str
  pub constraints : Str
  pub max_tasks : Str
  pub warning : Option Str
  pub draft : Option PlanDraft
  pub provider : Str
  pub model : Str

abbrev pub new_dialog : DraftDialog
new_dialog = record {
  step = input;
  goal = [];
  constraints = [];
  max_tasks = codes "10";
  warning = none;
  draft = none;
  provider = [];
  model = [];
}

pub data DialogEvent : Type 0 where
  type_goal type_constraints set_max_tasks : Str → DialogEvent
  generate generate_failed approve back : DialogEvent
  generated : GeneratePlanDraftResult → DialogEvent

pub data DialogRequest (N : Type 0) : Type 0 where
  generate_plan_draft : GeneratePlanDraftInput N → DialogRequest N
  create_plan_with_tasks : CreatePlanWithTasksInput → DialogRequest N

-- `text.trim() || undefined`
unfoldable pub given_text : Str → Option Str
unfolding is_blank trim
given_text text = if is_blank text then none else some (trim text)

-- `warning?.includes('AI Settings') ?? false`
unfoldable pub show_settings_link : DraftDialog → Bool
unfolding includes
show_settings_link dialog = elim dialog.warning [
  | none ↦ false
  | some text ↦ includes text (codes "AI Settings")
]

abbrev warning_of : Option Str → Str
warning_of none = codes "The AI provider did not return a usable draft."
warning_of (some text) = text

-- The answer to `generate`: a draft is taken only from an answer that is ok.
unfoldable pub receive :
    DraftDialog → (ok : Bool) → Option PlanDraft → GeneratePlanDraftResult → DraftDialog
receive dialog true (some draft) result = record dialog {
  draft = some draft;
  provider = result.provider;
  model = result.model;
  step = preview;
}
receive dialog _ _ result = record dialog { warning = some (warning_of result.warning) }

abbrev pub plan_of : {N : Type 0} → Option PlanDraft → Outcome (DialogRequest N)
plan_of none = nothing
plan_of (some draft) =
    requested (create_plan_with_tasks (draft_to_create_plan_with_tasks_input draft))

-- `approve`
unfoldable pub request_plan : {N : Type 0} → DraftDialog → Outcome (DialogRequest N)
request_plan dialog = plan_of dialog.draft

module _ {N : Type 0} (numbers : Numbers N) where
  unfoldable pub out_of_range : N → Bool
  out_of_range tasks =
      not (numbers.is_finite tasks)
      || (numbers.lt tasks (numbers.literal max_tasks_min)
          || numbers.lt (numbers.literal max_tasks_max) tasks)

  unfoldable pub request_draft : DraftDialog → DraftDialog × Outcome (DialogRequest N)
  unfolding is_blank trim given_text
  request_draft dialog =
      let tasks = numbers.number dialog.max_tasks in
      if is_blank dialog.goal
      then (dialog, refused (codes "Goal is required."))
      else if out_of_range tasks
      then (dialog, refused (codes "Max tasks must be between 1 and 30."))
      else (
        record dialog { warning = none },
        requested (
            generate_plan_draft (record {
              goal = trim dialog.goal;
              constraints = given_text dialog.constraints;
              max_tasks = some tasks;
            })),
      )

  -- The handlers of the dialog.
  unfoldable pub handle_dialog : DraftDialog → DialogEvent → DraftDialog × Outcome (DialogRequest N)
  unfolding receive request_plan
  handle_dialog dialog (type_goal text) =
      (record dialog { goal = take goal_max_chars text }, nothing)
  handle_dialog dialog (type_constraints text) =
      (record dialog { constraints = take constraints_max_chars text }, nothing)
  handle_dialog dialog (set_max_tasks text) = (record dialog { max_tasks = text }, nothing)
  handle_dialog dialog generate = request_draft dialog
  handle_dialog dialog generate_failed = (dialog, nothing)
  handle_dialog dialog (generated result) = (receive dialog result.ok result.draft result, nothing)
  handle_dialog dialog approve = (dialog, request_plan dialog)
  handle_dialog dialog back = (record dialog { step = input; draft = none }, nothing)

-- The state of `ClaimModal`.
pub record ClaimDialog : Type 0 where
  pub claimed_by : Str
  pub lease_seconds : Str
  pub error : Option Str

abbrev pub new_claim : ClaimDialog
new_claim = record { claimed_by = []; lease_seconds = codes "1800"; error = none }

module _ {N : Type 0} (numbers : Numbers N) where
  -- What the dialog hands to `onSubmit`.
  unfoldable pub submit : ClaimDialog → ClaimDialog × Option (ClaimTaskInput N)
  unfolding is_blank trim
  submit dialog =
      let seconds = numbers.number dialog.lease_seconds in
      if is_blank dialog.claimed_by
      then (record dialog { error = some (codes "Claimant name is required.") }, none)
      else if not (numbers.is_finite seconds) || numbers.le seconds (numbers.literal 0)
      then (record dialog { error = some (codes "Lease seconds must be a positive number.") }, none)
      else (
        record dialog { error = none },
        some (record { claimed_by = trim dialog.claimed_by; lease_seconds = some seconds }),
      )

  -- `submitClaim` of the page on what the dialog hands over: the task and the input of the call.
  abbrev pub claim_of : Panel → Option (ClaimTaskInput N) → Panel × Option (Str × ClaimTaskInput N)
  claim_of panel none = (panel, none)
  claim_of panel (some claim) =
      let (next, task_id) = submit_claim panel in (next, Option.map (λ id. (id, claim)) task_id)

  unfoldable pub claim_task :
      Panel → ClaimDialog → ClaimDialog × Panel × Option (Str × ClaimTaskInput N)
  unfolding submit submit_claim
  claim_task panel dialog =
      let (next, claim) = submit dialog in
      let (panel', call) = claim_of panel claim in (next, panel', call)
