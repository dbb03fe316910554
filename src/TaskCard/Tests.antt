-- ===== src/TaskCard/Tests.antt =====
-- A claimed task of this browser, and a ready one.
use mcp_project_server.PlanTasks.{
  is_task_ready, filter_ready_tasks, is_reclaimable, is_lease_expired, lease_state,
}
use mcp_project_server.Prelude.{
  In, true, ◌*◌, false, ◌+◌, length, ℕ, ◌≡◌, refl, Option, none, some, [], ◌∷◌, inl, inr,
}
use mcp_project_server.Js.Str.{Str, codes, str_eq}
use mcp_project_server.Api.Plans.{PlanStatus, TaskStatus, PlanTask}
use mcp_project_server.Claims.{Panel, token_key}
use mcp_project_server.TaskCard.Authority.{
  writes, click_sends, filter_ready_tasks-claim, press-IsAuthorised, IsAuthorised,
}
use mcp_project_server.TaskCard.Countdown.{CountsDown, active-CountsDown}
use mcp_project_server.TaskCard.{
  Call, has_token, lease_state, shows, CardButton, buttons, press, is_disabled, is_busy, click,
  is_terminal, format_countdown, heartbeat_call, can_claim_or_reclaim, can_manage, managed,
  can_complete,
}

abbrev task : TaskStatus → Option Str → PlanTask
task status lease = record {
  id = codes "a";
  plan_id = codes "p";
  project_id = codes "x";
  local_task_id = codes "t1";
  title = codes "Add";
  objective = codes "Done";
  acceptance_criteria = [];
  linked_files = [];
  priority = 0;
  status = status;
  claimed_by = none;
  lease_expires_at = lease;
  created_at = [];
  updated_at = [];
  dependencies = [];
  requirement_ids = [];
}

-- Dates that are written as their length.
abbrev get_time : Str → Option ℕ
get_time text = some (length text * 60_000)

abbrev show : ℕ → Str
show n = (48 + n) ∷ []

abbrev claimed_task : PlanTask
claimed_task = task TaskStatus.claimed (some (codes "12345"))

abbrev ready_task : PlanTask
ready_task = task TaskStatus.ready none

abbrev panel : Panel
panel = record {
  storage = some ((token_key (codes "a"), codes "secret") ∷ []);
  claim_target = none;
  busy = none;
  token_version = 0;
}

offered_with_token :
    buttons get_time true claimed_task 60_001
    ≡ CardButton.start ∷ CardButton.block ∷ CardButton.heartbeat ∷ CardButton.release
      ∷ CardButton.complete ∷ CardButton.copy_prompt ∷ CardButton.history ∷ []
unfolding buttons shows can_claim_or_reclaim is_reclaimable is_lease_expired str_eq can_manage
    managed lease_state can_complete
offered_with_token = refl

offered_without_token :
    buttons get_time false claimed_task 60_001 ≡ CardButton.copy_prompt ∷ CardButton.history ∷ []
unfolding buttons shows can_claim_or_reclaim is_reclaimable is_lease_expired str_eq can_manage
    managed lease_state can_complete
offered_without_token = refl

counted : format_countdown get_time show (codes "12345") 60_001 ≡ codes "3m left"
unfolding format_countdown
counted = refl

invalid_counted : format_countdown (λ _. none) show (codes "12345") 60_001 ≡ codes "NaNm left"
unfolding format_countdown
invalid_counted = refl

press-IsAuthorised_example :
    IsAuthorised panel.storage (codes "a") (heartbeat_call (codes "secret"))
unfolding lease_state buttons shows press has_token str_eq writes can_claim_or_reclaim
    is_reclaimable can_manage managed
press-IsAuthorised_example =
    press-IsAuthorised get_time panel claimed_task 60_001 CardButton.heartbeat none
      (heartbeat_call (codes "secret")) refl (inr (inr (inl refl))) refl refl

click_sends_example :
    (call : Call) × ((click panel claimed_task CardButton.release (some [])).1 ≡ some call)
unfolding lease_state buttons shows press has_token str_eq can_claim_or_reclaim is_reclaimable
    can_manage managed is_disabled is_busy
click_sends_example =
    click_sends get_time panel claimed_task 60_001 CardButton.release []
      (inr (inr (inr (inl refl)))) refl (λ e. absurd (cc)) (λ e. absurd (cc))

filter_ready_tasks-claim_example :
    let offered = buttons get_time (has_token panel.storage (codes "a")) ready_task 7 in
    In CardButton.claim offered
    × ¬ In CardButton.heartbeat offered
    × ¬ In CardButton.release offered
    × ((press panel ready_task CardButton.claim none).0.claim_target ≡ some (codes "a"))
unfolding filter_ready_tasks is_task_ready
filter_ready_tasks-claim_example =
    filter_ready_tasks-claim get_time panel (ready_task ∷ []) PlanStatus.active 7 ready_task none
      (inl refl)

active-CountsDown_example :
    CountsDown show 300_000 60_001 (format_countdown get_time show (codes "12345") 60_001)
unfolding lease_state str_eq
active-CountsDown_example =
    active-CountsDown get_time show claimed_task 60_001 (codes "12345") 300_000 refl refl refl

disabled_prompt :
    click panel (task TaskStatus.completed none) CardButton.copy_prompt none ≡ (panel, none)
unfolding click is_disabled is_busy is_terminal
disabled_prompt = refl
