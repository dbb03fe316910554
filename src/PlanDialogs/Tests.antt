-- ===== src/PlanDialogs/Tests.antt =====
-- The dialogs on small inputs, with decimal numbers.
use mcp_project_server.Prelude.{◌≡◌, refl, true, none, some, List, [], ◌∷◌}
use mcp_project_server.Js.Str.{codes}
use mcp_project_server.Js.Number.{decimals}
use mcp_project_server.Api.Plans.{PlanDraft, GeneratePlanDraftResult}
use mcp_project_server.Claims.{Panel}
use mcp_project_server.PlanForms.{refused, nothing}
use mcp_project_server.PlanDialogs.{
  new_dialog, DialogEvent, type_goal, set_max_tasks, generate, approve, back, generated,
  handle_dialog, new_claim, claim_task, request_draft, out_of_range,
}
use mcp_project_server.PlanDialogs.Review.{
  run, IsReviewed, IsInOrder, new_dialog-IsInOrder, handle_dialog-IsReviewed,
}
use mcp_project_server.PlanDialogs.Claimed.{IsClaim, claim_task-IsClaim}

abbrev draft : PlanDraft
draft = record { title = codes "T"; goal = codes "G"; tasks = []; dependencies = []; notes = none }

abbrev answer : GeneratePlanDraftResult
answer = record {
  ok = true;
  draft = some draft;
  provider = codes "p";
  model = codes "m";
  warning = none;
}

abbrev events : List DialogEvent
events = type_goal (codes " Split it ") ∷ generate ∷ generated answer ∷ []

too_many :
    handle_dialog decimals
      (run decimals (type_goal (codes "g") ∷ set_max_tasks (codes "31") ∷ []) new_dialog)
      generate
    ≡ (
      run decimals (type_goal (codes "g") ∷ set_max_tasks (codes "31") ∷ []) new_dialog,
      refused (codes "Max tasks must be between 1 and 30."),
    )
unfolding handle_dialog run request_draft out_of_range
too_many = refl

nothing_after_back :
    (handle_dialog decimals (run decimals (back ∷ []) new_dialog) approve).1 ≡ nothing
unfolding handle_dialog run
nothing_after_back = refl

new_dialog-IsInOrder_example : IsInOrder (run decimals events new_dialog)
new_dialog-IsInOrder_example = new_dialog-IsInOrder decimals events

handle_dialog-IsReviewed_example :
    IsReviewed decimals events approve
      (handle_dialog decimals (run decimals events new_dialog) approve).1
handle_dialog-IsReviewed_example = handle_dialog-IsReviewed decimals events approve

abbrev panel : Panel
panel = record {
  storage = some [];
  claim_target = some (codes "a");
  busy = none;
  token_version = 0;
}

claim_task-IsClaim_example :
    IsClaim decimals panel
      (claim_task decimals panel (record new_claim { claimed_by = codes " me " }))
claim_task-IsClaim_example =
    claim_task-IsClaim decimals panel (record new_claim { claimed_by = codes " me " })

negative_seconds :
    (claim_task decimals panel
      (record { claimed_by = codes "me"; lease_seconds = codes "-5"; error = none })).2
    ≡ none
unfolding claim_task
negative_seconds = refl
