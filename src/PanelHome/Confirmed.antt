-- ===== src/PanelHome/Confirmed.antt =====
-- A project is unregistered only after its own name was typed for it.
use mcp_project_server.Prelude.{
  ◌≡◌, refl, sym, ap, ◌∙◌, ◌||◌, Option, none, some, List, [], ◌∷◌, arith, if-cases,
}
use mcp_project_server.Js.Str.{Str, str_eq, str_eq_iff, trim}
use mcp_project_server.Summaries.{can_confirm_project_delete}
use mcp_project_server.PlanForms.{Outcome, requested, is_blank}
use mcp_project_server.PlanForms.Sent.{IsGiven, trim-IsGiven}
use mcp_project_server.PanelHome.{
  Home, new_home, HomeEvent, toggle_form, register, registered, confirm_delete, cancel_delete,
  deleted, call_failed, type_name, type_path, type_confirm, ask_delete, HomeRequest,
  register_project, delete_project, submit_register, confirmed, submit_delete, handle_home,
}

unfoldable pub run : List HomeEvent → Home → Home
unfolding handle_home
run [] home = home
run (event ∷ events) home = run events (handle_home home event).0

-- The project that was last asked for, unless that was cancelled or done; and what was typed since
-- then.
unfoldable pub asked_after : HomeEvent → Option Str × Str → Option Str × Str
asked_after (ask_delete project) asked = (some project, [])
asked_after cancel_delete asked = (none, [])
asked_after deleted asked = (none, [])
asked_after (type_confirm text) asked = (asked.0, text)
asked_after _ asked = asked

unfoldable pub asked : List HomeEvent → Option Str × Str → Option Str × Str
unfolding asked_after
asked [] now = now
asked (event ∷ events) now = asked events (asked_after event now)

-- What a call of the page holds, after `events` from a new page.
unfoldable pub IsConfirmed : List HomeEvent → HomeEvent → Outcome HomeRequest → Type 0
unfolding asked
IsConfirmed events event (requested (register_project input)) =
    (event ≡ register) × IsGiven input.name × IsGiven input.root_path
IsConfirmed events event (requested (delete_project project)) =
    (event ≡ confirm_delete)
    × ((asked events (none, [])).0 ≡ some project)
    × (trim (asked events (none, [])).1 ≡ project)
IsConfirmed events event _ = Unit {0}

abbrev pending : Home → Option Str × Str
pending home = (home.pending_delete, home.confirm_name)

handle_home-asked_after :
    (home : Home) (event : HomeEvent)
    → pending (handle_home home event).0 ≡ asked_after event (pending home)
unfolding handle_home asked_after
handle_home-asked_after home event = ground arith

run-asked :
    (events : List HomeEvent) (home : Home)
    → pending (run events home) ≡ asked events (pending home)
unfolding run asked
run-asked [] home = refl
run-asked (event ∷ events) home =
    run-asked events (handle_home home event).0
    ∙ ap (asked events) (handle_home-asked_after home event)

submit_register-IsConfirmed :
    (events : List HomeEvent) (home : Home) → IsConfirmed events register (submit_register home)
unfolding IsConfirmed submit_register
submit_register-IsConfirmed events home =
    if-cases (IsConfirmed events register) (is_blank home.name || is_blank home.path) (λ _. tt)
      (λ given.
        (refl, trim-IsGiven home.name (ground arith), trim-IsGiven home.path (ground arith)))

confirmed-IsConfirmed :
    (events : List HomeEvent) (typed : Str) (target : Option Str)
    → (target, typed) ≡ asked events (none, [])
    → IsConfirmed events confirm_delete (confirmed typed target)
unfolding IsConfirmed can_confirm_project_delete
confirmed-IsConfirmed events typed none e = tt
confirmed-IsConfirmed events typed (some target) e =
    if-cases (IsConfirmed events confirm_delete) (str_eq (trim typed) target)
      (λ same. (
        refl,
        ap (λ (p : Option Str × Str). p.0) (sym e),
        ap (λ (p : Option Str × Str). trim p.1) (sym e) ∙ (str_eq_iff (trim typed) target).0 same,
      ))
      (λ _. tt)

-- After any events of a new page, a project is unregistered only by a confirmation, if it is the
-- project that was last asked for and neither cancelled nor done since, and what was typed since
-- then is its name, but for blanks at the ends; a project is registered only with a name and a
-- path that are given.
pub handle_home-IsConfirmed :
    (events : List HomeEvent) (event : HomeEvent)
    → IsConfirmed events event (handle_home (run events new_home) event).1
unfolding handle_home IsConfirmed submit_delete
handle_home-IsConfirmed events register = submit_register-IsConfirmed events (run events new_home)
handle_home-IsConfirmed events confirm_delete =
    confirmed-IsConfirmed events (run events new_home).confirm_name
      (run events new_home).pending_delete (run-asked events new_home)
handle_home-IsConfirmed events toggle_form = tt
handle_home-IsConfirmed events registered = tt
handle_home-IsConfirmed events cancel_delete = tt
handle_home-IsConfirmed events deleted = tt
handle_home-IsConfirmed events call_failed = tt
handle_home-IsConfirmed events (type_name _) = tt
handle_home-IsConfirmed events (type_path _) = tt
handle_home-IsConfirmed events (type_confirm _) = tt
handle_home-IsConfirmed events (ask_delete _) = tt
