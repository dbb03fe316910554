-- ===== src/TaskCard/Authority.antt =====
-- Which buttons of a card carry the authority of its lease.
use mcp_project_server.Prelude.{
  ◌⊎◌, filter_complete, filter_sound, In, ℕ, ◌≡◌, ◌≢◌, refl, Bool, true, false, Option, none, some,
  List, [], arith, inl, inr, Option-cases, Bool-cases,
}
use mcp_project_server.Js.Map.{Map}
use mcp_project_server.Js.Str.{Str, str_eq}
use mcp_project_server.Api.Plans.{PlanStatus, PlanTask}
use mcp_project_server.PlanTasks.{
  by_id, is_task_ready, filter_ready_tasks, reclaimable_status, active, lease_state, is_reclaimable,
}
use mcp_project_server.Claims.{with_token, Storage, Panel, get_stored_token}
use mcp_project_server.TaskCard.{
  sends, all_buttons, buttons, CardButton, Call, heartbeat_call, release_call, status_call,
  complete_call, prepare_call, shows, can_claim_or_reclaim, can_manage, can_complete, managed,
  has_token, press, set_status, block_reason, is_disabled, is_busy, click,
}

-- The token that a call carries.
unfoldable pub call_token : Call → Option Str
call_token (heartbeat_call token) = some token
call_token (release_call token) = some token
call_token (status_call input) = input.claim_token
call_token (complete_call token) = token
call_token prepare_call = none

-- Every call but the one that prepares a prompt changes the task.
unfoldable pub writes : Call → Bool
writes prepare_call = false
writes _ = true

-- The call carries the token that is stored for the task, and the token is not empty.
pub record IsAuthorised (storage : Storage) (task_id : Str) (call : Call) : Type 0 where
  pub token : Str
  pub nonempty : str_eq token [] ≡ false
  pub stored : get_stored_token storage task_id ≡ some token
  pub carried : call_token call ≡ some token

has_token_sound :
    (storage : Storage) (task_id : Str)
    → has_token storage task_id ≡ true
    → (token : Str) × (str_eq token [] ≡ false) × (get_stored_token storage task_id ≡ some token)
unfolding has_token
has_token_sound storage task_id h = elim (Option-cases (get_stored_token storage task_id)) [
  | inl missing ↦ absurd (ground arith)
  | inr (token, e) ↦ elim (Bool-cases (str_eq token [])) [
    | inl empty ↦ absurd (ground arith)
    | inr nonempty ↦ (token, nonempty, e)
  ]
]

with_token_stored :
    (panel : Panel) (task_id token : Str)
    → str_eq token [] ≡ false
    → get_stored_token panel.storage task_id ≡ some token
    → with_token panel task_id ≡ (record panel { busy = some task_id }, some token)
unfolding with_token
with_token_stored panel task_id token nonempty stored = ground arith

writes_with_token :
    (panel : Panel) (task : PlanTask) (b : CardButton) (reply : Option Str) (token : Str)
    (call : Call)
    → str_eq token [] ≡ false
    → get_stored_token panel.storage task.id ≡ some token
    → (press panel task b reply).1 ≡ some call
    → writes call ≡ true
    → call_token call ≡ some token
unfolding press call_token writes set_status block_reason
writes_with_token panel task CardButton.claim reply token call nonempty stored sent w = absurd (cc)
writes_with_token panel task CardButton.start reply token call nonempty stored sent w =
    ground (arith, with_token_stored panel task.id token nonempty stored)
writes_with_token panel task CardButton.send_to_review reply token call nonempty stored sent w =
    ground (arith, with_token_stored panel task.id token nonempty stored)
writes_with_token panel task CardButton.block none token call nonempty stored sent w = absurd (cc)
writes_with_token panel task CardButton.block (some r) token call nonempty stored sent w =
    ground (arith, with_token_stored panel task.id token nonempty stored)
writes_with_token panel task CardButton.heartbeat reply token call nonempty stored sent w =
    ground (arith, with_token_stored panel task.id token nonempty stored)
writes_with_token panel task CardButton.release reply token call nonempty stored sent w =
    ground (arith, with_token_stored panel task.id token nonempty stored)
writes_with_token panel task CardButton.complete reply token call nonempty stored sent w =
    ground (arith, with_token_stored panel task.id token nonempty stored)
writes_with_token panel task CardButton.copy_prompt reply token call nonempty stored sent w =
    ground (arith, with_token_stored panel task.id token nonempty stored)
writes_with_token panel task CardButton.history reply token call nonempty stored sent w =
    absurd (cc)

not_copy :
    (panel : Panel) (task : PlanTask) (b : CardButton) (reply : Option Str) (call : Call)
    → (press panel task b reply).1 ≡ some call
    → writes call ≡ true
    → b ≢ CardButton.copy_prompt
unfolding press writes
not_copy panel task b reply call sent w e = absurd (ground arith)

not_history :
    (panel : Panel) (task : PlanTask) (b : CardButton) (reply : Option Str) (call : Call)
    → (press panel task b reply).1 ≡ some call
    → writes call ≡ true
    → b ≢ CardButton.history
unfolding press writes
not_history panel task b reply call sent w e = absurd (ground arith)

sends_call :
    (panel : Panel) (task_id : Str) (run : Str → Call)
    → has_token panel.storage task_id ≡ true
    → (call : Call) × ((sends (with_token panel task_id) run).1 ≡ some call)
sends_call panel task_id run h =
    let (token, nonempty, stored) = has_token_sound panel.storage task_id h in
    (run token, ground (arith, with_token_stored panel task_id token nonempty stored))

all_buttons_complete : (b : CardButton) → In b all_buttons
all_buttons_complete CardButton.claim = ground arith
all_buttons_complete CardButton.start = ground arith
all_buttons_complete CardButton.send_to_review = ground arith
all_buttons_complete CardButton.block = ground arith
all_buttons_complete CardButton.heartbeat = ground arith
all_buttons_complete CardButton.release = ground arith
all_buttons_complete CardButton.complete = ground arith
all_buttons_complete CardButton.copy_prompt = ground arith
all_buttons_complete CardButton.history = ground arith

module _ (get_time : Str → Option ℕ) where
  shows-has_token :
      (has_token : Bool) (task : PlanTask) (now : ℕ) (b : CardButton)
      → lease_state get_time task now ≡ active
      → shows get_time has_token task now b ≡ true
      → b ≢ CardButton.copy_prompt
      → b ≢ CardButton.history
      → has_token ≡ true
  unfolding shows can_claim_or_reclaim can_complete can_manage managed lease_state is_reclaimable
  shows-has_token has_token task now CardButton.claim lease shown c h = ground arith
  shows-has_token has_token task now CardButton.start lease shown c h = ground arith
  shows-has_token has_token task now CardButton.send_to_review lease shown c h = ground arith
  shows-has_token has_token task now CardButton.block lease shown c h = ground arith
  shows-has_token has_token task now CardButton.heartbeat lease shown c h = ground arith
  shows-has_token has_token task now CardButton.release lease shown c h = ground arith
  shows-has_token has_token task now CardButton.complete lease shown c h = ground arith
  shows-has_token has_token task now CardButton.copy_prompt lease shown c h = absurd (c refl)
  shows-has_token has_token task now CardButton.history lease shown c h = absurd (h refl)

  shows_sound :
      (held : Bool) (task : PlanTask) (now : ℕ) (b : CardButton)
      → In b (buttons get_time held task now)
      → shows get_time held task now b ≡ true
  unfolding buttons
  shows_sound held task now b m = (filter_sound (shows get_time held task now) all_buttons b m).1

  shows_complete :
      (held : Bool) (task : PlanTask) (now : ℕ) (b : CardButton)
      → shows get_time held task now b ≡ true
      → In b (buttons get_time held task now)
  unfolding buttons
  shows_complete held task now b e =
      filter_complete (shows get_time held task now) all_buttons b (all_buttons_complete b) e

  -- While the lease of a task is active, a button that the card offers calls the server to change
  -- the task only with the token that this browser stores for the task, which is not empty.
  pub press-IsAuthorised :
      (panel : Panel) (task : PlanTask) (now : ℕ) (b : CardButton) (reply : Option Str)
      (call : Call)
      → lease_state get_time task now ≡ active
      → In b (buttons get_time (has_token panel.storage task.id) task now)
      → (press panel task b reply).1 ≡ some call
      → writes call ≡ true
      → IsAuthorised panel.storage task.id call
  unfolding buttons
  press-IsAuthorised panel task now b reply call lease offered sent w =
      let shown = shows_sound (has_token panel.storage task.id) task now b offered in
      let (token, nonempty, stored) = has_token_sound panel.storage task.id (
        shows-has_token (has_token panel.storage task.id) task now b lease shown
          (not_copy panel task b reply call sent w) (not_history panel task b reply call sent w)) in
      record {
        token = token;
        nonempty = nonempty;
        stored = stored;
        carried = writes_with_token panel task b reply token call nonempty stored sent w;
      }

  -- While the lease of a task is active, its card does not offer to claim it.
  active-claim :
      (held : Bool) (task : PlanTask) (now : ℕ)
      → lease_state get_time task now ≡ active
      → shows get_time held task now CardButton.claim ≡ false
  unfolding shows can_claim_or_reclaim lease_state is_reclaimable reclaimable_status
  active-claim held task now lease = ground arith

  shown_sends :
      (panel : Panel) (task : PlanTask) (now : ℕ) (b : CardButton) (reason : Str)
      → shows get_time (has_token panel.storage task.id) task now b ≡ true
      → b ≢ CardButton.claim
      → b ≢ CardButton.history
      → (call : Call) × ((press panel task b (some reason)).1 ≡ some call)
  unfolding press shows can_manage set_status block_reason
  shown_sends panel task now CardButton.claim reason e c h = absurd (c refl)
  shown_sends panel task now CardButton.start reason e c h =
      sends_call panel task.id _ (ground arith)
  shown_sends panel task now CardButton.send_to_review reason e c h =
      sends_call panel task.id _ (ground arith)
  shown_sends panel task now CardButton.block reason e c h =
      sends_call panel task.id _ (ground arith)
  shown_sends panel task now CardButton.heartbeat reason e c h =
      sends_call panel task.id _ (ground arith)
  shown_sends panel task now CardButton.release reason e c h =
      sends_call panel task.id _ (ground arith)
  shown_sends panel task now CardButton.complete reason e c h = (_, refl)
  shown_sends panel task now CardButton.copy_prompt reason e c h = (_, refl)
  shown_sends panel task now CardButton.history reason e c h = absurd (h refl)

  -- A click on a button that the card offers and that is not disabled calls the server, where a
  -- prompt for a reason is answered and the button is not that of a claim or of the history: none
  -- fails for want of a token.
  pub click_sends :
      (panel : Panel) (task : PlanTask) (now : ℕ) (b : CardButton) (reason : Str)
      → In b (buttons get_time (has_token panel.storage task.id) task now)
      → is_disabled (is_busy panel task) task b ≡ false
      → b ≢ CardButton.claim
      → b ≢ CardButton.history
      → (call : Call) × ((click panel task b (some reason)).1 ≡ some call)
  unfolding click
  click_sends panel task now b reason offered enabled c h = rw enabled (
      shown_sends panel task now b reason
        (shows_sound (has_token panel.storage task.id) task now b offered) c h)

  ready_shows :
      (held : Bool) (task : PlanTask) (now : ℕ) (tasks_by_id : Map PlanTask) (plan : PlanStatus)
      → is_task_ready get_time task tasks_by_id plan now ≡ true
      → shows get_time held task now CardButton.claim ≡ true
  unfolding is_task_ready shows can_claim_or_reclaim
  ready_shows held task now tasks_by_id plan r = ground arith

  claim_alone :
      (held : Bool) (task : PlanTask) (now : ℕ) (b : CardButton)
      → shows get_time held task now CardButton.claim ≡ true
      → (b ≡ CardButton.heartbeat) ⊎ (b ≡ CardButton.release)
      → shows get_time held task now b ≡ false
  unfolding shows can_claim_or_reclaim can_manage managed lease_state is_reclaimable
      reclaimable_status
  claim_alone held task now b c (inl e) = rw e (ground arith)
  claim_alone held task now b c (inr e) = rw e (ground arith)

  -- A task that the filter for ready tasks keeps has a card that offers to claim it and neither
  -- to extend nor to release a lease; a press of that button makes it the task to claim.
  pub filter_ready_tasks-claim :
      (panel : Panel) (tasks : List PlanTask) (plan : PlanStatus) (now : ℕ) (task : PlanTask)
      (reply : Option Str)
      → In task (filter_ready_tasks get_time tasks plan now)
      → let offered = buttons get_time (has_token panel.storage task.id) task now in
        In CardButton.claim offered
        × ¬ In CardButton.heartbeat offered
        × ¬ In CardButton.release offered
        × ((press panel task CardButton.claim reply).0.claim_target ≡ some task.id)
  unfolding press filter_ready_tasks
  filter_ready_tasks-claim panel tasks plan now task reply m =
      let held = has_token panel.storage task.id in
      let ready =
        ready_shows held task now (by_id tasks) plan
          (filter_sound (λ t. is_task_ready get_time t (by_id tasks) plan now) tasks task m).1 in
      let alone : (b : CardButton)
          → (b ≡ CardButton.heartbeat) ⊎ (b ≡ CardButton.release)
          → ¬ In b (buttons get_time held task now) =
        λ b among other.
          absurd
            (cc (claim_alone held task now b ready among, shows_sound held task now b other)) in
      (
        shows_complete held task now CardButton.claim ready,
        alone CardButton.heartbeat (inl refl),
        alone CardButton.release (inr refl),
        refl,
      )
