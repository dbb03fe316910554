-- ===== src/PlanDialogs/Review.antt =====
-- The dialog that drafts a plan: nothing is created but what was reviewed.
use mcp_project_server.Prelude.{
  ◌≤◌, ◌≡◌, ◌≢◌, ◌↔◌, refl, ap, ◌∙◌, Bool, true, false, Option, none, some, List, [], ◌∷◌, arith,
  length, length-take, if-cases, if-both, sym,
}
use mcp_project_server.Js.Str.{Str}
use mcp_project_server.Js.Trim.{length-trim}
use mcp_project_server.Js.Number.{Numbers}
use mcp_project_server.Api.Plans.{PlanDraft, GeneratePlanDraftInput, GeneratePlanDraftResult}
use mcp_project_server.Drafts.{draft_to_create_plan_with_tasks_input}
use mcp_project_server.PlanForms.{Outcome, requested, is_blank}
use mcp_project_server.PlanForms.Sent.{IsGiven, trim-IsGiven, IsChange}
use mcp_project_server.PlanDialogs.{
  plan_of, preview, DraftDialog, new_dialog, DialogEvent, type_goal, type_constraints,
  set_max_tasks, generate, generate_failed, approve, back, generated, DialogRequest,
  generate_plan_draft, create_plan_with_tasks, given_text, receive, request_plan, out_of_range,
  request_draft, handle_dialog,
}

-- The draft that an answer brings.
unfoldable pub proposed : (ok : Bool) → Option PlanDraft → Option PlanDraft → Option PlanDraft
proposed true (some draft) held = some draft
proposed _ _ held = held

-- The draft under review after an event, if `held` was before it.
unfoldable pub reviewed : DialogEvent → Option PlanDraft → Option PlanDraft
unfolding proposed
reviewed (generated result) held = proposed result.ok result.draft held
reviewed back held = none
reviewed _ held = held

unfoldable pub review : List DialogEvent → Option PlanDraft → Option PlanDraft
unfolding reviewed
review [] held = held
review (event ∷ events) held = review events (reviewed event held)

-- The dialog is in order: it shows the preview exactly if it holds a draft, and its texts are
-- within their limits.
pub record IsInOrder (dialog : DraftDialog) : Type 0 where
  pub shows_draft : (dialog.step ≡ preview) ↔ (dialog.draft ≢ none)
  pub goal_short : length dialog.goal ≤ 4000
  pub constraints_short : length dialog.constraints ≤ 2000

receive-draft :
    (dialog : DraftDialog) (ok : Bool) (draft : Option PlanDraft) (result : GeneratePlanDraftResult)
    → (receive dialog ok draft result).draft ≡ proposed ok draft dialog.draft
unfolding receive proposed
receive-draft dialog true (some draft) result = refl
receive-draft dialog true none result = refl
receive-draft dialog false draft result = refl

receive-IsInOrder :
    (dialog : DraftDialog) (ok : Bool) (draft : Option PlanDraft) (result : GeneratePlanDraftResult)
    → IsInOrder dialog
    → IsInOrder (receive dialog ok draft result)
unfolding receive
receive-IsInOrder dialog true (some draft) result h = record {
  shows_draft = (λ _ e. absurd (cc), λ _. refl);
  goal_short = h.goal_short;
  constraints_short = h.constraints_short;
}
receive-IsInOrder dialog true none result h = record {
  shows_draft = h.shows_draft;
  goal_short = h.goal_short;
  constraints_short = h.constraints_short;
}
receive-IsInOrder dialog false draft result h = record {
  shows_draft = h.shows_draft;
  goal_short = h.goal_short;
  constraints_short = h.constraints_short;
}

given_text-IsChange : (text : Str) → IsChange (given_text text)
unfolding given_text IsChange
given_text-IsChange text =
    if-cases IsChange (is_blank text) (λ _. tt) (λ given. trim-IsGiven text given)

module _ {N : Type 0} (numbers : Numbers N) where
  unfoldable pub run : List DialogEvent → DraftDialog → DraftDialog
  unfolding handle_dialog
  run [] dialog = dialog
  run (event ∷ events) dialog = run events (handle_dialog numbers dialog event).0

  -- What a call for a draft holds.
  pub record IsFitCall (call : GeneratePlanDraftInput N) : Type 0 where
    pub tasks : N
    pub goal_given : IsGiven call.goal
    pub goal_short : length call.goal ≤ 4000
    pub constraints_given : IsChange call.constraints
    pub max_tasks : call.max_tasks ≡ some tasks
    pub finite : numbers.is_finite tasks ≡ true
    pub at_least : numbers.lt tasks (numbers.literal 1) ≡ false
    pub at_most : numbers.lt (numbers.literal 30) tasks ≡ false

  -- A call of the dialog after `events` from a new one: for a draft, fit and made by `generate`;
  -- for a plan, made by `approve`, with the draft under review.
  unfoldable pub IsReviewed : List DialogEvent → DialogEvent → Outcome (DialogRequest N) → Type 0
  unfolding review
  IsReviewed events event (requested (generate_plan_draft call)) =
      (event ≡ generate) × IsFitCall call
  IsReviewed events event (requested (create_plan_with_tasks plan)) =
      (draft : PlanDraft) × (event ≡ approve)
      × (review events none ≡ some draft)
      × (plan ≡ draft_to_create_plan_with_tasks_input draft)
  IsReviewed events event _ = Unit {0}

  request_draft-draft :
      (dialog : DraftDialog) → (request_draft numbers dialog).0.draft ≡ dialog.draft
  unfolding request_draft
  request_draft-draft dialog =
      let P : DraftDialog × Outcome (DialogRequest N) → Type 0 = λ r. r.0.draft ≡ dialog.draft in
      if-both P (is_blank dialog.goal) refl
        (if-both P (out_of_range numbers (numbers.number dialog.max_tasks)) refl refl)

  request_draft-IsInOrder :
      (dialog : DraftDialog) → IsInOrder dialog → IsInOrder (request_draft numbers dialog).0
  unfolding request_draft
  request_draft-IsInOrder dialog h =
      let P : DraftDialog × Outcome (DialogRequest N) → Type 0 = λ r. IsInOrder r.0 in
      if-both P (is_blank dialog.goal) h (
        if-both P (out_of_range numbers (numbers.number dialog.max_tasks)) h (record {
          shows_draft = h.shows_draft;
          goal_short = h.goal_short;
          constraints_short = h.constraints_short;
        }))

  handle_dialog-draft :
      (dialog : DraftDialog) (event : DialogEvent)
      → (handle_dialog numbers dialog event).0.draft ≡ reviewed event dialog.draft
  unfolding handle_dialog reviewed
  handle_dialog-draft dialog (type_goal _) = refl
  handle_dialog-draft dialog (type_constraints _) = refl
  handle_dialog-draft dialog (set_max_tasks _) = refl
  handle_dialog-draft dialog generate = request_draft-draft dialog
  handle_dialog-draft dialog generate_failed = refl
  handle_dialog-draft dialog approve = refl
  handle_dialog-draft dialog back = refl
  handle_dialog-draft dialog (generated result) = receive-draft dialog result.ok result.draft result

  handle_dialog-IsInOrder :
      (dialog : DraftDialog) (event : DialogEvent)
      → IsInOrder dialog
      → IsInOrder (handle_dialog numbers dialog event).0
  unfolding handle_dialog
  handle_dialog-IsInOrder dialog (type_goal text) h = record {
    shows_draft = h.shows_draft;
    goal_short = length-take 4000 text;
    constraints_short = h.constraints_short;
  }
  handle_dialog-IsInOrder dialog (type_constraints text) h = record {
    shows_draft = h.shows_draft;
    goal_short = h.goal_short;
    constraints_short = length-take 2000 text;
  }
  handle_dialog-IsInOrder dialog (set_max_tasks _) h = record {
    shows_draft = h.shows_draft;
    goal_short = h.goal_short;
    constraints_short = h.constraints_short;
  }
  handle_dialog-IsInOrder dialog generate h = request_draft-IsInOrder dialog h
  handle_dialog-IsInOrder dialog generate_failed h = h
  handle_dialog-IsInOrder dialog approve h = h
  handle_dialog-IsInOrder dialog back h = record {
    shows_draft = (λ e. absurd (cc), λ e. absurd (e refl));
    goal_short = h.goal_short;
    constraints_short = h.constraints_short;
  }
  handle_dialog-IsInOrder dialog (generated result) h =
      receive-IsInOrder dialog result.ok result.draft result h

  run-draft :
      (events : List DialogEvent) (dialog : DraftDialog)
      → (run events dialog).draft ≡ review events dialog.draft
  unfolding run review
  run-draft [] dialog = refl
  run-draft (event ∷ events) dialog =
      run-draft events (handle_dialog numbers dialog event).0
      ∙ ap (review events) (handle_dialog-draft dialog event)

  run-IsInOrder :
      (events : List DialogEvent) (dialog : DraftDialog)
      → IsInOrder dialog
      → IsInOrder (run events dialog)
  unfolding run
  run-IsInOrder [] dialog h = h
  run-IsInOrder (event ∷ events) dialog h =
      run-IsInOrder events (handle_dialog numbers dialog event).0
        (handle_dialog-IsInOrder dialog event h)

  request_draft-IsReviewed :
      (events : List DialogEvent) (dialog : DraftDialog)
      → length dialog.goal ≤ 4000
      → IsReviewed events generate (request_draft numbers dialog).1
  unfolding request_draft IsReviewed out_of_range
  request_draft-IsReviewed events dialog short =
      let tasks = numbers.number dialog.max_tasks in
      let P : DraftDialog × Outcome (DialogRequest N) → Type 0 =
        λ r. IsReviewed events generate r.1 in
      if-cases P (is_blank dialog.goal) (λ _. tt)
        (λ given.
          if-cases P (out_of_range numbers tasks) (λ _. tt)
            (λ inside. (
              refl,
              record {
                tasks = tasks;
                goal_given = trim-IsGiven dialog.goal given;
                goal_short = let shorter = length-trim dialog.goal in omega arith;
                constraints_given = given_text-IsChange dialog.constraints;
                max_tasks = refl;
                finite = ground arith;
                at_least = ground arith;
                at_most = ground arith;
              },
            )))

  plan_of-IsReviewed :
      (events : List DialogEvent) (draft : Option PlanDraft)
      → review events none ≡ draft
      → IsReviewed events approve (plan_of {N = N} draft)
  unfolding IsReviewed
  plan_of-IsReviewed events none e = tt
  plan_of-IsReviewed events (some draft) e = (draft, refl, e, refl)

  -- After any events of a new dialog, it shows the preview exactly if a draft is under review, and
  -- its texts are within their limits.
  pub new_dialog-IsInOrder : (events : List DialogEvent) → IsInOrder (run events new_dialog)
  new_dialog-IsInOrder events = run-IsInOrder events new_dialog (record {
    shows_draft = (λ e. absurd (cc), λ e. absurd (e refl));
    goal_short = omega arith;
    constraints_short = omega arith;
  })

  -- After any events of a new dialog, a call is made for a plan only by its approval, and then
  -- with the draft under review; a call for a draft is made only by `generate`, with a given goal
  -- of at most 4000 code units and a finite number of tasks that is neither below 1 nor above 30.
  pub handle_dialog-IsReviewed :
      (events : List DialogEvent) (event : DialogEvent)
      → IsReviewed events event (handle_dialog numbers (run events new_dialog) event).1
  unfolding handle_dialog IsReviewed request_plan
  handle_dialog-IsReviewed events (type_goal _) = tt
  handle_dialog-IsReviewed events (type_constraints _) = tt
  handle_dialog-IsReviewed events (set_max_tasks _) = tt
  handle_dialog-IsReviewed events generate =
      request_draft-IsReviewed events (run events new_dialog)
        (new_dialog-IsInOrder events).goal_short
  handle_dialog-IsReviewed events generate_failed = tt
  handle_dialog-IsReviewed events approve =
      plan_of-IsReviewed events (run events new_dialog).draft (sym (run-draft events new_dialog))
  handle_dialog-IsReviewed events back = tt
  handle_dialog-IsReviewed events (generated _) = tt
