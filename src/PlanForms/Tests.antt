-- ===== src/PlanForms/Tests.antt =====
-- The forms on small inputs.
use mcp_project_server.Prelude.{◌≡◌, refl, true, false, none, some, List, [], ◌∷◌}
use mcp_project_server.Js.Str.{codes}
use mcp_project_server.Api.Plans.{PlanStatus, Plan}
use mcp_project_server.PlanForms.{
  update_plan, PlansPage, PageEvent, filter_by, select, plans_loaded, requested, refused,
  create_plan, DetailForms, save_edit, submit_task, submit_dependency, handle_detail,
}
use mcp_project_server.PlanForms.Sent.{
  IsFitOutcome, handle_detail-IsFit, IsFitPlan, create_plan-IsFitPlan,
}
use mcp_project_server.PlanForms.Selection.{
  loaded_first, named_by, HasIds, run, run-selected, or_else, last_named, first_loaded,
}

abbrev page : PlansPage
page = record {
  status_filter = some PlanStatus.active;
  selected = none;
  new_plan_open = true;
  new_title = codes " Checkout ";
  new_goal = codes "done";
  ai_draft_open = false;
}

abbrev plan : Plan
plan = record {
  id = codes "p";
  project_id = codes "x";
  title = codes "Checkout";
  goal = codes "done";
  status = PlanStatus.draft;
  author = [];
  created_at = [];
  updated_at = [];
  tasks = [];
}

abbrev forms : DetailForms
forms = record {
  editing = true;
  draft_title = codes "Checkout";
  draft_goal = codes " more ";
  ready_only = false;
  add_task_open = true;
  task_local_id = codes "t1";
  task_title = codes "Add";
  task_objective = codes "  ";
  dep_from = codes "a";
  dep_on = codes "a";
}

created_trimmed :
    create_plan page ≡ requested (record { title = codes "Checkout"; goal = codes "done" })
unfolding create_plan
created_trimmed = refl

edited_goal :
    handle_detail plan forms save_edit
    ≡ (forms, requested (update_plan (record { title = none; goal = some (codes "more") })))
unfolding handle_detail
edited_goal = refl

-- A blank at the end of the plan's title makes an update of it, with the same title.
same_title :
    handle_detail plan
      (record forms { draft_title = codes "Checkout "; draft_goal = codes "done" })
      save_edit
    ≡ (
      record forms { draft_title = codes "Checkout "; draft_goal = codes "done" },
      requested (update_plan (record { title = some (codes "Checkout"); goal = none })),
    )
unfolding handle_detail
same_title = refl

refused_task :
    handle_detail plan forms submit_task
    ≡ (forms, refused (codes "Local id, title, and objective are all required."))
unfolding handle_detail
refused_task = refl

refused_dependency :
    handle_detail plan forms submit_dependency
    ≡ (forms, refused (codes "A task cannot depend on itself."))
unfolding handle_detail
refused_dependency = refl

abbrev events : List PageEvent
events = plans_loaded (plan ∷ []) ∷ filter_by none ∷ select (codes "q") ∷ plans_loaded [] ∷ []

handle_detail-IsFit_example : IsFitOutcome plan forms (handle_detail plan forms save_edit).1
handle_detail-IsFit_example = handle_detail-IsFit plan forms save_edit

create_plan-IsFitPlan_example : IsFitPlan (create_plan page)
create_plan-IsFitPlan_example = create_plan-IsFitPlan page

run-selected_example :
    (run events page).selected
    ≡ or_else (last_named events) (or_else page.selected (first_loaded events))
unfolding HasIds named_by loaded_first
run-selected_example =
    run-selected events page
      (
        ((λ e. absurd (cc)), (λ e. absurd (cc))),
        (
          ((λ e. absurd (cc)), (λ e. absurd (cc))),
          (
            ((λ e. absurd (cc)), (λ e. absurd (cc))),
            (((λ e. absurd (cc)), (λ e. absurd (cc))), tt),
          ),
        ),
      )
      (λ e. absurd (cc))
