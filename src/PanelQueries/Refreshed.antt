-- ===== src/PanelQueries/Refreshed.antt =====
-- Which queries an edit of the control panel refreshes.
use mcp_project_server.Prelude.{◌≡◌, refl, ◌∙◌, Bool, true, false, ◌||◌, [], ◌∷◌, ◌++◌, arith}
use mcp_project_server.Js.Str.{Str, codes, str_eq, starts_with}
use mcp_project_server.Claims.{is_planning_key}
use mcp_project_server.PanelQueries.{
  PanelQuery, PanelEdit, under, key_suffix, query_key, projects_key, invalidates, register_project,
  delete_project, resolve_entry, set_focus, edit_requirements, reindex, add_entry, edit_plans,
  briefing, requirements, plans, ready_tasks, section, plan, plan_ready_tasks, task_history,
}

-- What an edit refreshes of its project: a new entry its section, the focus its section and the
-- briefing, an edit of requirements their list, an edit of plans all that shows plans or their
-- tasks.
unfoldable pub refreshes : PanelEdit → PanelQuery → Bool
unfolding str_eq
refreshes (add_entry name) (section other) = str_eq other name
refreshes set_focus (section other) = str_eq other (codes "focus")
refreshes set_focus briefing = true
refreshes edit_requirements requirements = true
refreshes edit_plans plans = true
refreshes edit_plans ready_tasks = true
refreshes edit_plans (plan _) = true
refreshes edit_plans (plan_ready_tasks _) = true
refreshes edit_plans (task_history _ _) = true
refreshes _ _ = false

str_eq-append : (p s t : Str) → str_eq (p ++ s) (p ++ t) ≡ str_eq s t
unfolding str_eq
str_eq-append [] s t = refl
str_eq-append (c ∷ p) s t = ground (arith, str_eq-append p s t)

starts_with-append_both : (p s t : Str) → starts_with (p ++ s) (p ++ t) ≡ starts_with s t
unfolding starts_with
starts_with-append_both [] s t = refl
starts_with-append_both (c ∷ p) s t = ground (arith, starts_with-append_both p s t)

str_eq-under : (project s t : Str) → str_eq (under project s) (under project t) ≡ str_eq s t
str_eq-under project s t =
    str_eq-append (codes "/api/projects/") (project ++ s) (project ++ t) ∙ str_eq-append project s t

starts_with-under :
    (project s t : Str) → starts_with (under project s) (under project t) ≡ starts_with s t
starts_with-under project s t =
    starts_with-append_both (codes "/api/projects/") (project ++ s) (project ++ t)
    ∙ starts_with-append_both project s t

-- The list of projects is no query of a project.
projects_key-under : (project s : Str) → str_eq (under project s) projects_key ≡ false
unfolding str_eq
projects_key-under project s = refl

-- The same tests on what follows the project in a key.
abbrev suffix_test : PanelEdit → Str → Bool
suffix_test register_project suffix = false
suffix_test delete_project suffix = false
suffix_test (add_entry name) suffix = str_eq suffix (codes "/sections/" ++ name)
suffix_test resolve_entry suffix = str_eq suffix (codes "/sections")
suffix_test set_focus suffix =
    str_eq suffix (codes "/sections/focus") || str_eq suffix (codes "/briefing")
suffix_test edit_requirements suffix = str_eq suffix (codes "/requirements")
suffix_test reindex suffix = str_eq suffix (codes "/index-status")
suffix_test edit_plans suffix =
    str_eq suffix (codes "/ready-tasks") || starts_with suffix (codes "/plans")

suffix_test-refreshes :
    (edit : PanelEdit) (query : PanelQuery)
    → suffix_test edit (key_suffix query) ≡ refreshes edit query
unfolding key_suffix str_eq refreshes starts_with
suffix_test-refreshes edit query = ground arith

invalidates-suffix_test :
    (project : Str) (edit : PanelEdit) (suffix : Str)
    → invalidates project edit (under project suffix) ≡ suffix_test edit suffix
unfolding invalidates is_planning_key
invalidates-suffix_test project register_project suffix = projects_key-under project suffix
invalidates-suffix_test project delete_project suffix = projects_key-under project suffix
invalidates-suffix_test project (add_entry name) suffix =
    str_eq-under project suffix (codes "/sections/" ++ name)
invalidates-suffix_test project resolve_entry suffix =
    str_eq-under project suffix (codes "/sections")
invalidates-suffix_test project set_focus suffix =
    rw
      (
        str_eq-under project suffix (codes "/sections/focus"),
        str_eq-under project suffix (codes "/briefing"),
      )
      refl
invalidates-suffix_test project edit_requirements suffix =
    str_eq-under project suffix (codes "/requirements")
invalidates-suffix_test project reindex suffix = str_eq-under project suffix (codes "/index-status")
invalidates-suffix_test project edit_plans suffix =
    rw
      (
        str_eq-under project suffix (codes "/ready-tasks"),
        starts_with-under project suffix (codes "/plans"),
      )
      refl

-- An accepted edit of a project refreshes exactly these of the project's queries: a new entry the
-- section that it is added to; the focus its section and the briefing; an edit of requirements
-- their list; an edit of plans every query of plans, of ready tasks and of a task's history; the
-- resolution of an entry, a reindex, and the registration or deletion of a project none.
pub invalidates-refreshes :
    (project : Str) (edit : PanelEdit) (query : PanelQuery)
    → invalidates project edit (query_key project query) ≡ refreshes edit query
unfolding query_key
invalidates-refreshes project edit query =
    invalidates-suffix_test project edit (key_suffix query) ∙ suffix_test-refreshes edit query
