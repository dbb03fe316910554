-- ===== src/TaskCard.antt =====
-- pcs-control-panel-project/artifacts/pcs-control-panel/src/components/plans/TaskCard.tsx: what the
-- card of a task shows, which buttons it offers, and what a press of them does in
-- pages/Plans.tsx. `get_time` is that of PlanTasks and `show` the runtime's `String` of a number.
pub mod Authority
pub mod Countdown
mod Tests
use mathlib.Core.Option
use mcp_project_server.Prelude.{
  ℕ, ◌-◌, ◌/◌, ◌%◌, Bool, true, false, not, ◌&&◌, ◌||◌, Option, none, some, List, [], ◌∷◌, ◌++◌,
  filter, leb, ltb, if◌then◌else◌,
}
use mcp_project_server.Js.Str.{Str, codes, str_eq}
use mcp_project_server.Api.Plans.{TaskStatus, PlanTask, SetTaskStatusInput}
use mcp_project_server.PlanTasks.{
  LeaseState, unleased, active, expired, reclaimable_status, is_ready_status, is_reclaimable,
  lease_state,
}
use mcp_project_server.Claims
use mcp_project_server.Claims.{Storage, Panel, usable, get_stored_token, with_token}

pub data Tone : Type 0 where
  blue mint amber red ink : Tone

-- `STATUS_TONE`
unfoldable pub status_tone : TaskStatus → Tone
status_tone TaskStatus.pending = ink
status_tone TaskStatus.ready = blue
status_tone TaskStatus.claimed = amber
status_tone TaskStatus.in_progress = amber
status_tone TaskStatus.blocked = red
status_tone TaskStatus.in_review = blue
status_tone TaskStatus.completed = mint
status_tone TaskStatus.cancelled = ink

-- `STATUS_LABEL`
unfoldable pub status_label : TaskStatus → Str
status_label TaskStatus.pending = codes "Pending"
status_label TaskStatus.ready = codes "Ready"
status_label TaskStatus.claimed = codes "Claimed"
status_label TaskStatus.in_progress = codes "In progress"
status_label TaskStatus.blocked = codes "Blocked"
status_label TaskStatus.in_review = codes "In review"
status_label TaskStatus.completed = codes "Completed"
status_label TaskStatus.cancelled = codes "Cancelled"

-- The hours and minutes of a time in milliseconds.
unfoldable pub countdown : ℕ → ℕ × ℕ
countdown ms = let total_minutes = ms / 60_000 in (total_minutes / 60, total_minutes % 60)

unfoldable pub countdown_text : (ℕ → Str) → ℕ × ℕ → Str
countdown_text show (hours, minutes) =
    if ltb 0 hours
    then show hours ++ (codes "h " ++ (show minutes ++ codes "m left"))
    else show minutes ++ codes "m left"

-- The difference to an invalid date is NaN, which no comparison holds of.
unfoldable pub format_countdown : (Str → Option ℕ) → (ℕ → Str) → Str → ℕ → Str
unfolding countdown countdown_text
format_countdown get_time show lease_expires_at now = elim (get_time lease_expires_at) [
  | none ↦ codes "NaNm left"
  | some ends ↦
      if leb ends now then codes "Expired" else countdown_text show (countdown (ends - now))
]

pub data CardButton : Type 0 where
  claim start send_to_review block heartbeat release complete copy_prompt history : CardButton

-- In the order in which they stand.
abbrev pub all_buttons : List CardButton
all_buttons =
    CardButton.claim ∷ CardButton.start ∷ CardButton.send_to_review ∷ CardButton.block
    ∷ CardButton.heartbeat ∷ CardButton.release ∷ CardButton.complete ∷ CardButton.copy_prompt
    ∷ CardButton.history ∷ []

unfoldable pub is_terminal : TaskStatus → Bool
is_terminal TaskStatus.completed = true
is_terminal TaskStatus.cancelled = true
is_terminal _ = false

abbrev pub is_claimed : TaskStatus → Bool
is_claimed TaskStatus.claimed = true
is_claimed _ = false

abbrev pub is_in_progress : TaskStatus → Bool
is_in_progress TaskStatus.in_progress = true
is_in_progress _ = false

abbrev pub is_active : LeaseState → Bool
is_active active = true
is_active _ = false

module _ (get_time : Str → Option ℕ) where
  unfoldable pub can_claim_or_reclaim : PlanTask → ℕ → Bool
  can_claim_or_reclaim task now = is_ready_status task.status || is_reclaimable get_time task now

  unfoldable pub managed : PlanTask → ℕ → Bool
  unfolding reclaimable_status
  managed task now = reclaimable_status task.status && is_active (lease_state get_time task now)

  -- The notice that another claimant holds the lease.
  unfoldable pub locked_no_token : (has_token : Bool) → PlanTask → ℕ → Bool
  locked_no_token has_token task now = managed task now && not has_token

  unfoldable pub can_manage : (has_token : Bool) → PlanTask → ℕ → Bool
  can_manage has_token task now = managed task now && has_token

  unfoldable pub can_complete : (has_token : Bool) → PlanTask → ℕ → Bool
  unfolding is_terminal
  can_complete has_token task now =
      not (is_terminal task.status)
      && (can_manage has_token task now || not (is_active (lease_state get_time task now)))

  -- The condition under which the card renders a button.
  unfoldable pub shows : (has_token : Bool) → PlanTask → ℕ → CardButton → Bool
  unfolding reclaimable_status
  shows has_token task now CardButton.claim = can_claim_or_reclaim task now
  shows has_token task now CardButton.start =
      is_claimed task.status && can_manage has_token task now
  shows has_token task now CardButton.send_to_review =
      is_in_progress task.status && can_manage has_token task now
  shows has_token task now CardButton.block =
      (is_claimed task.status || is_in_progress task.status) && can_manage has_token task now
  shows has_token task now CardButton.heartbeat =
      reclaimable_status task.status && can_manage has_token task now
  shows has_token task now CardButton.release =
      reclaimable_status task.status && can_manage has_token task now
  shows has_token task now CardButton.complete = can_complete has_token task now
  shows has_token task now CardButton.copy_prompt = true
  shows has_token task now CardButton.history = true

  unfoldable pub buttons : (has_token : Bool) → PlanTask → ℕ → List CardButton
  buttons has_token task now = filter (shows has_token task now) all_buttons

unfoldable pub is_disabled : (busy : Bool) → PlanTask → CardButton → Bool
unfolding is_terminal
is_disabled busy task CardButton.copy_prompt = busy || is_terminal task.status
is_disabled busy task CardButton.history = false
is_disabled busy task _ = busy

-- `!!getStoredToken(task.id)`
unfoldable pub has_token : Storage → Str → Bool
unfolding get_stored_token
has_token storage task_id = elim (usable (get_stored_token storage task_id)) [
  | none ↦ false
  | some _ ↦ true
]

-- The calls that the buttons lead to, with what is sent.
pub data Call : Type 0 where
  heartbeat_call release_call : (claim_token : Str) → Call
  status_call : SetTaskStatusInput → Call
  complete_call : (claim_token : Option Str) → Call
  prepare_call : Call

abbrev pub sends : Panel × Option Str → (Str → Call) → Panel × Option Call
sends (panel, token) run = (panel, Option.map run token)

unfoldable pub set_status : Panel → PlanTask → TaskStatus → Option Str → Panel × Option Call
unfolding with_token
set_status panel task status reason =
    sends (with_token panel task.id)
      (λ token. status_call (record { status = status; claim_token = some token; reason = reason }))

-- `blockReason`: the answer to the prompt, `none` where it is cancelled.
unfoldable pub block_reason : Panel → PlanTask → Option Str → Panel × Option Call
unfolding str_eq set_status
block_reason panel task none = (panel, none)
block_reason panel task (some reason) =
    set_status panel task TaskStatus.blocked (if str_eq reason [] then none else some reason)

-- What the handler of a button does. `history` opens a drawer, which is no part of the state.
unfoldable pub press : Panel → PlanTask → CardButton → (reply : Option Str) → Panel × Option Call
unfolding set_status block_reason with_token Claims.complete
press panel task CardButton.claim reply = (record panel { claim_target = some task.id }, none)
press panel task CardButton.start reply = set_status panel task TaskStatus.in_progress none
press panel task CardButton.send_to_review reply = set_status panel task TaskStatus.in_review none
press panel task CardButton.block reply = block_reason panel task reply
press panel task CardButton.heartbeat reply = sends (with_token panel task.id) heartbeat_call
press panel task CardButton.release reply = sends (with_token panel task.id) release_call
press panel task CardButton.complete reply =
    let (next, token) = Claims.complete panel task.id in (next, some (complete_call token))
press panel task CardButton.copy_prompt reply =
    (record panel { busy = some task.id }, some prepare_call)
press panel task CardButton.history reply = (panel, none)

-- `busyTaskId === task.id`
unfoldable pub is_busy : Panel → PlanTask → Bool
unfolding str_eq
is_busy panel task = elim panel.busy [ none ↦ false | some busy ↦ str_eq busy task.id ]

-- A click on a button, of which a disabled one makes nothing.
unfoldable pub click : Panel → PlanTask → CardButton → (reply : Option Str) → Panel × Option Call
unfolding is_busy is_disabled press
click panel task b reply =
    if is_disabled (is_busy panel task) task b then (panel, none) else press panel task b reply
