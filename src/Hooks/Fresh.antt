-- ===== src/Hooks/Fresh.antt =====
-- What the mutations of a project invalidate.
use mcp_project_server.Prelude.{◌≡◌, refl, inl, inr, true, false, some, All, In}
use mcp_project_server.Js.Str.{Str, codes, str_eq, str_eq_refl}
use mcp_project_server.Api.Types.{RequirementStatus}
use mcp_project_server.Api.Projects.{EntryInput}
use mcp_project_server.Client.Endpoints.{Runtime}
use mcp_project_server.Router.{Query, query_key, is_refreshable}
use mcp_project_server.Hooks.Mutations.{
  Mutation, entry_queries, requirement_queries, entry_add, entry_update, entry_resolve,
  requirement_add, requirement_set_status, requirement_sync, use_set_focus,
}

-- The mutations of a project, with their arguments.
pub data Edit : Type 0 where
  entry_added : (section : Str) → EntryInput → Edit
  entry_updated : (section entry_id : Str) → EntryInput → Edit
  entry_resolved : (section entry_id : Str) → Edit
  add_requirement : (title : Str) → RequirementStatus → Edit
  set_status : (entry_id : Str) → RequirementStatus → Edit
  sync : Edit
  focus : (words : Str) → Edit

unfoldable pub mutation_of : Runtime → Str → Edit → Mutation
mutation_of rt project (entry_added section input) = entry_add rt project section input
mutation_of rt project (entry_updated section entry_id input) =
    entry_update rt project section entry_id input
mutation_of rt project (entry_resolved section entry_id) = entry_resolve rt project section entry_id
mutation_of rt project (add_requirement title status) = requirement_add rt project title status
mutation_of rt project (set_status entry_id status) =
    requirement_set_status rt project entry_id status
mutation_of rt project sync = requirement_sync rt project
mutation_of rt project (focus words) = use_set_focus rt project words

-- The section of the dashboard that an edit changes.
abbrev pub section_of : Edit → Str
section_of (entry_added section _) = section
section_of (entry_updated section _ _) = section
section_of (entry_resolved section _) = section
section_of (focus _) = codes "focus"
section_of _ = codes "requirements"

-- The queries that show what an edit changes are invalidated, and all that is invalidated is what a
-- refresh of the project reads again.
pub record IsFresh (project name : Str) (m : Mutation) : Type 0 where
  pub briefing : In (Query.briefing project) m.invalidated
  pub section : In (Query.section project name) m.invalidated
  pub within : All (λ q. is_refreshable (query_key q) (some project) false ≡ true) m.invalidated

entry-IsFresh :
    (rt : Runtime) (project name : Str) (m : Mutation)
    → m.invalidated ≡ entry_queries project name
    → IsFresh project name m
unfolding entry_queries is_refreshable query_key str_eq
entry-IsFresh rt project name m e =
    let own = str_eq_refl project in
    record {
      briefing = rw e (inr (inl refl));
      section = rw e (inl refl);
      within = rw e (own, (own, (own, tt)));
    }

requirement-IsFresh :
    (rt : Runtime) (project : Str) (m : Mutation)
    → m.invalidated ≡ requirement_queries project
    → IsFresh project (codes "requirements") m
unfolding requirement_queries is_refreshable query_key str_eq
requirement-IsFresh rt project m e =
    let own = str_eq_refl project in
    record {
      briefing = rw e (inr (inr (inl refl)));
      section = rw e (inr (inl refl));
      within = rw e (own, (own, (own, tt)));
    }

-- Every edit of a project's entries, requirements or focus invalidates the briefing and the section
-- of the dashboard that it changes, and it invalidates nothing that a refresh of the project would
-- not read again.
pub mutation_of-IsFresh :
    (rt : Runtime) (project : Str) (edit : Edit)
    → IsFresh project (section_of edit) (mutation_of rt project edit)
unfolding mutation_of entry_add entry_update entry_resolve requirement_add requirement_set_status
    requirement_sync use_set_focus is_refreshable query_key str_eq
mutation_of-IsFresh rt project (entry_added section input) = entry-IsFresh rt project section _ refl
mutation_of-IsFresh rt project (entry_updated section entry_id input) =
    entry-IsFresh rt project section _ refl
mutation_of-IsFresh rt project (entry_resolved section entry_id) =
    entry-IsFresh rt project section _ refl
mutation_of-IsFresh rt project (add_requirement title status) =
    requirement-IsFresh rt project _ refl
mutation_of-IsFresh rt project (set_status entry_id status) = requirement-IsFresh rt project _ refl
mutation_of-IsFresh rt project sync = requirement-IsFresh rt project _ refl
mutation_of-IsFresh rt project (focus words) =
    let own = str_eq_refl project in
    record {
      briefing = inr (inr (inl refl));
      section = inl refl;
      within = (own, (refl, (own, tt)));
    }
