-- ===== src/PlanForms/Selection.antt =====
-- Which plan the page shows.
use mcp_project_server.Prelude.{
  Option-cases, ◌≡◌, ◌≢◌, refl, ap, ◌∙◌, false, Option, none, some, List, [], ◌∷◌, All, Bool-cases,
  inl, inr,
}
use mcp_project_server.Js.Str.{Str, str_eq, str_eq_iff}
use mcp_project_server.PlanForms.{
  PlansPage, PageEvent, filter_by, select, plans_loaded, toggle_new_plan, open_ai_draft,
  close_ai_draft, type_title, type_goal, created, ai_created, is_unset, select_first, handle_page,
}

unfoldable pub run : List PageEvent → PlansPage → PlansPage
unfolding handle_page
run [] page = page
run (event ∷ events) page = run events (handle_page page event)

-- The plan that an event names: the user's choice, or one that was created.
unfoldable pub named_by : PageEvent → Option Str
named_by (select id) = some id
named_by (created plan) = some plan.id
named_by (ai_created plan) = some plan.id
named_by _ = none

-- The first plan of a list that an event brings.
unfoldable pub loaded_first : PageEvent → Option Str
loaded_first (plans_loaded (plan ∷ _)) = some plan.id
loaded_first _ = none

abbrev pub or_else : Option Str → Option Str → Option Str
or_else (some id) other = some id
or_else none other = other

-- The plan that the last event with a name names.
unfoldable pub last_named : List PageEvent → Option Str
unfolding named_by
last_named [] = none
last_named (event ∷ events) = or_else (last_named events) (named_by event)

-- The first plan of the first list that comes before any event with a name and is not empty.
unfoldable pub first_loaded : List PageEvent → Option Str
unfolding loaded_first
first_loaded [] = none
first_loaded (event ∷ events) = or_else (loaded_first event) (first_loaded events)

-- Ids are not empty.
unfoldable pub HasIds : PageEvent → Type 0
unfolding named_by loaded_first
HasIds event = (named_by event ≢ some []) × (loaded_first event ≢ some [])

or_else-none : (a : Option Str) → a ≡ or_else a none
or_else-none none = refl
or_else-none (some id) = refl

or_else_assoc : (a b c : Option Str) → or_else (or_else a b) c ≡ or_else a (or_else b c)
or_else_assoc none b c = refl
or_else_assoc (some id) b c = refl

is_unset-some : (id : Str) → some id ≢ some [] → is_unset (some id) ≡ false
unfolding is_unset
is_unset-some id set = elim (Bool-cases (str_eq id [])) [
  | inl empty ↦ absurd (set (ap some ((str_eq_iff id []).0 empty)))
  | inr given ↦ given
]

handle_page-selected :
    (event : PageEvent) (page : PlansPage)
    → page.selected ≢ some []
    → (handle_page page event).selected
      ≡ or_else (named_by event) (or_else page.selected (loaded_first event))
unfolding handle_page named_by loaded_first select_first is_unset
handle_page-selected (filter_by status) page set = or_else-none page.selected
handle_page-selected (select id) page set = refl
handle_page-selected (plans_loaded []) page set = or_else-none page.selected
handle_page-selected (plans_loaded (plan ∷ plans)) page set = elim (Option-cases page.selected) [
  | inl open_ ↦ rw open_ refl
  | inr (id, chosen) ↦
      let taken : is_unset (some id) ≡ false = is_unset-some id (rw chosen at set) in
      rw (chosen, taken) refl
]
handle_page-selected toggle_new_plan page set = or_else-none page.selected
handle_page-selected open_ai_draft page set = or_else-none page.selected
handle_page-selected close_ai_draft page set = or_else-none page.selected
handle_page-selected (type_title text) page set = or_else-none page.selected
handle_page-selected (type_goal text) page set = or_else-none page.selected
handle_page-selected (created plan) page set = refl
handle_page-selected (ai_created plan) page set = refl

or_else-set : (a b : Option Str) → a ≢ some [] → b ≢ some [] → or_else a b ≢ some []
or_else-set none b sa sb = sb
or_else-set (some id) b sa sb = sa

-- After any events on a page that shows no plan, it shows the plan that the last event with a name
-- names; if no event named one, the first of the first list that was not empty.
pub run-selected :
    (events : List PageEvent) (page : PlansPage)
    → All HasIds events
    → page.selected ≢ some []
    → (run events page).selected
      ≡ or_else (last_named events) (or_else page.selected (first_loaded events))
unfolding run last_named first_loaded HasIds
run-selected [] page ids set = or_else-none page.selected
run-selected (event ∷ events) page (id, ids) set =
    let step = handle_page-selected event page set in
    let after =
      or_else-set (named_by event) (or_else page.selected (loaded_first event)) id.0
        (or_else-set page.selected (loaded_first event) set id.1) in
    run-selected events (handle_page page event) ids (rw step after)
    ∙ ap (λ o. or_else (last_named events) (or_else o (first_loaded events))) step
    ∙ rw (or_else_assoc, or_else_assoc, or_else_assoc) refl
