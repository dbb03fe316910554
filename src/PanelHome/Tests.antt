-- ===== src/PanelHome/Tests.antt =====
-- Two projects to unregister.
use mcp_project_server.Prelude.{◌≡◌, refl, List, [], ◌∷◌}
use mcp_project_server.Js.Str.{codes}
use mcp_project_server.PlanForms.{nothing, requested}
use mcp_project_server.PanelHome.{
  HomeEvent, ask_delete, type_confirm, confirm_delete, delete_project, new_home, handle_home,
}
use mcp_project_server.PanelHome.Confirmed.{run, IsConfirmed, handle_home-IsConfirmed}

abbrev events : List HomeEvent
events = ask_delete (codes "a") ∷ type_confirm (codes " a ") ∷ []

deletes :
    (handle_home (run events new_home) confirm_delete).1 ≡ requested (delete_project (codes "a"))
unfolding handle_home run
deletes = refl

-- What was typed for one project does not confirm another.
other_project :
    (handle_home (run (ask_delete (codes "b") ∷ events) new_home) confirm_delete).1
    ≡ requested (delete_project (codes "a"))
unfolding handle_home run
other_project = refl

cancelled :
    (handle_home
      (run
        (ask_delete (codes "a") ∷ type_confirm (codes "a") ∷ ask_delete (codes "b") ∷ [])
        new_home)
      confirm_delete).1
    ≡ nothing
unfolding handle_home run
cancelled = refl

handle_home-IsConfirmed_example :
    IsConfirmed events confirm_delete (handle_home (run events new_home) confirm_delete).1
handle_home-IsConfirmed_example = handle_home-IsConfirmed events confirm_delete
