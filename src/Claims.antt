-- ===== src/Claims.antt =====
-- The claims of tasks in pcs-control-panel-project/artifacts/pcs-control-panel/src/pages/Plans.tsx:
-- the tokens that the browser keeps, and what the answers of the server do to them. What the
-- notices say, and the queries that are read again, are not part of the state.
pub mod History
mod Tests
use mcp_project_server.Prelude.{
  ℕ, ◌+◌, Bool, true, false, not, ◌&&◌, ◌||◌, Option, none, some, List, [], ◌∷◌, ◌++◌, filter,
  length, if◌then◌else◌, ◌==◌,
}
use mcp_project_server.Js.Str.{Str, codes, str_eq, starts_with}
use mcp_project_server.Js.Map.{Map, get, put, delete}
use mcp_project_server.Api.Plans.{PlanTask, TaskStatus}

unfoldable pub token_key : Str → Str
token_key task_id = codes "pcs-claim-token:" ++ task_id

-- `localStorage`; `none` where its methods throw.
abbrev pub Storage : Type 0
Storage = Option (Map Str)

unfoldable pub get_stored_token : Storage → Str → Option Str
unfolding get token_key
get_stored_token none task_id = none
get_stored_token (some items) task_id = get items (token_key task_id)

unfoldable pub set_stored_token : Storage → Str → Str → Storage
unfolding put token_key
set_stored_token none task_id token = none
set_stored_token (some items) task_id token = some (put items (token_key task_id) token)

unfoldable pub clear_stored_token : Storage → Str → Storage
unfolding delete token_key
clear_stored_token none task_id = none
clear_stored_token (some items) task_id = some (delete items (token_key task_id))

-- `invalidatePlanningQueries`: the first part of a key, where it is a text.
unfoldable pub is_planning_key : Str → Str → Bool
unfolding str_eq starts_with
is_planning_key project key =
    str_eq key (codes "/api/projects/" ++ (project ++ codes "/ready-tasks"))
    || starts_with key (codes "/api/projects/" ++ (project ++ codes "/plans"))

abbrev is_completed : TaskStatus → Bool
is_completed TaskStatus.completed = true
is_completed _ = false

-- `progressLabel`; `show` is the runtime's `String` of a number.
unfoldable pub progress_label : (ℕ → Str) → List PlanTask → Str
progress_label show tasks =
    show (length (filter (λ t. is_completed t.status) tasks))
    ++ (codes " / " ++ show (length tasks))

-- The state of `PlanDetail` that the claims read and write.
pub record Panel : Type 0 where
  pub storage : Storage
  pub claim_target : Option Str
  pub busy : Option Str
  pub token_version : ℕ

-- An error of the client: the status of an `ApiError`, or none for another error.
abbrev pub Failure : Type 0
Failure = Option ℕ

abbrev pub is_conflict : Failure → Bool
is_conflict none = false
is_conflict (some status) = status == 409

-- `handlePlanningError`: a conflict on a task clears its token.
unfoldable pub handle_planning_error : Failure → Str → Storage → Storage
unfolding clear_stored_token str_eq
handle_planning_error failure task_id storage =
    if is_conflict failure && not (str_eq task_id [])
    then clear_stored_token storage task_id
    else storage

-- `submitClaim` up to its answer: the task that is claimed.
unfoldable pub submit_claim : Panel → Panel × Option Str
submit_claim panel = elim panel.claim_target [
  | none ↦ (panel, none)
  | some task_id ↦ (record panel { busy = some task_id }, some task_id)
]

-- A token that is not empty.
abbrev pub usable : Option Str → Option Str
usable none = none
usable (some token) = if str_eq token [] then none else some token

-- `withToken`, with the `setBusyTaskId` of `heartbeat`, `release` and `setStatus`: the token that
-- is sent.
unfoldable pub with_token : Panel → Str → Panel × Option Str
unfolding get_stored_token str_eq
with_token panel task_id = elim (usable (get_stored_token panel.storage task_id)) [
  | none ↦ (panel, none)
  | some token ↦ (record panel { busy = some task_id }, some token)
]

-- `complete` up to its answer: it sends the token if there is one.
unfoldable pub complete : Panel → Str → Panel × Option Str
unfolding get_stored_token
complete panel task_id =
    (record panel { busy = some task_id }, get_stored_token panel.storage task_id)

-- What the server answers to a call about a task.
pub data Answer : Type 0 where
  claimed : (token : Str) → Answer
  extended status_set released completed : Answer
  claim_failed call_failed : Failure → Answer

-- The handlers of the answers.
unfoldable pub answered : Panel → Str → Answer → Panel
unfolding set_stored_token clear_stored_token handle_planning_error
answered panel task_id (claimed token) = record {
  storage = set_stored_token panel.storage task_id token;
  claim_target = none;
  busy = none;
  token_version = panel.token_version + 1;
}
answered panel task_id extended = record panel { busy = none }
answered panel task_id status_set = record panel { busy = none }
answered panel task_id released = record panel {
  storage = clear_stored_token panel.storage task_id;
  busy = none;
  token_version = panel.token_version + 1;
}
answered panel task_id completed = record panel {
  storage = clear_stored_token panel.storage task_id;
  busy = none;
  token_version = panel.token_version + 1;
}
answered panel task_id (claim_failed failure) = record panel {
  storage = handle_planning_error failure task_id panel.storage;
  busy = none;
}
answered panel task_id (call_failed failure) = record panel {
  storage = handle_planning_error failure task_id panel.storage;
  busy = none;
  token_version = panel.token_version + 1;
}
