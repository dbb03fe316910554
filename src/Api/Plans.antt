-- ===== src/Api/Plans.antt =====
-- The shapes of plans and of their tasks
-- (pcs-control-panel-project/lib/api-client-react/src/generated/api.schemas.ts).
use mcp_project_server.Prelude.{ℕ, Bool, List, Option}
use mcp_project_server.Js.Str.{Str}

pub data PlanStatus : Type 0 where
  draft active completed archived : PlanStatus

pub data TaskStatus : Type 0 where
  pending ready claimed in_progress blocked in_review completed cancelled : TaskStatus

pub record PlanTask : Type 0 where
  pub id : Str
  pub plan_id : Str
  pub project_id : Str
  pub local_task_id : Str
  pub title : Str
  pub objective : Str
  pub acceptance_criteria : List Str
  pub linked_files : List Str
  pub priority : ℕ
  pub status : TaskStatus
  pub claimed_by : Option Str
  pub lease_expires_at : Option Str
  pub created_at : Str
  pub updated_at : Str
  pub dependencies : List Str
  pub requirement_ids : List Str

pub record PlanDraftTask : Type 0 where
  pub local_task_id : Str
  pub title : Str
  pub objective : Str
  pub acceptance_criteria : List Str
  pub linked_files : List Str
  pub requirement_ids : List Str

pub record PlanDraftDependency : Type 0 where
  pub task_local_id : Str
  pub depends_on_local_id : Str

pub record PlanDraft : Type 0 where
  pub title : Str
  pub goal : Str
  pub tasks : List PlanDraftTask
  pub dependencies : List PlanDraftDependency
  pub notes : Option Str

-- What the route that creates a plan with its tasks takes.
pub record TaskSpecInput : Type 0 where
  pub local_task_id : Str
  pub title : Str
  pub objective : Str
  pub acceptance_criteria : Option (List Str)
  pub linked_files : Option (List Str)
  pub requirement_ids : Option (List Str)
  pub priority : Option ℕ

pub record DependencySpecInput : Type 0 where
  pub task_local_id : Str
  pub depends_on_local_id : Str

pub record CreatePlanWithTasksInput : Type 0 where
  pub title : Str
  pub goal : Str
  pub tasks : List TaskSpecInput
  pub dependencies : Option (List DependencySpecInput)

pub record Plan : Type 0 where
  pub id : Str
  pub project_id : Str
  pub title : Str
  pub goal : Str
  pub status : PlanStatus
  pub author : Str
  pub created_at : Str
  pub updated_at : Str
  pub tasks : List PlanTask

pub record CreatePlanInput : Type 0 where
  pub title : Str
  pub goal : Str

pub record UpdatePlanInput : Type 0 where
  pub title : Option Str
  pub goal : Option Str

pub record AddPlanTaskInput : Type 0 where
  pub local_task_id : Str
  pub title : Str
  pub objective : Str
  pub acceptance_criteria : Option (List Str)
  pub linked_files : Option (List Str)
  pub requirement_ids : Option (List Str)
  pub priority : Option ℕ

pub record AddTaskDependencyInput : Type 0 where
  pub task_id : Str
  pub depends_on_task_id : Str

pub record ClaimTaskInput (N : Type 0) : Type 0 where
  pub claimed_by : Str
  pub lease_seconds : Option N

pub record SetTaskStatusInput : Type 0 where
  pub status : TaskStatus
  pub claim_token : Option Str
  pub reason : Option Str

pub record GeneratePlanDraftInput (N : Type 0) : Type 0 where
  pub goal : Str
  pub constraints : Option Str
  pub max_tasks : Option N

pub record GeneratePlanDraftResult : Type 0 where
  pub ok : Bool
  pub draft : Option PlanDraft
  pub provider : Str
  pub model : Str
  pub warning : Option Str
