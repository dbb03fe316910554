-- ===== src/Client/Requirements.antt =====
-- The functions of web/src/api/client.ts for requirements, their contracts and their evidence.
use mcp_project_server.Prelude.{List, [], ◌++◌, foldl}
use mcp_project_server.Js.Str.{Str, codes}
use mcp_project_server.Api.Compliance.{
  CreateInvariantInput, UpdateInvariantInput, CreateCriterionInput, UpdateCriterionInput,
}
use mcp_project_server.Client.Request.{Request}
use mcp_project_server.Client.Endpoints.{
  Runtime, project_path, plain, without_body, with_body, append_requirement,
}

module _ (rt : Runtime) where
  unfoldable pub list_requirements : Str → Request
  list_requirements project = plain rt (project_path rt project (codes "/requirements"))

  unfoldable pub get_requirement_contract : Str → Str → Request
  get_requirement_contract project requirement_id = plain rt (
      project_path rt project
        (codes "/requirements/" ++ (rt.encode requirement_id ++ codes "/contract")))

  unfoldable pub create_requirement_invariant : Str → Str → CreateInvariantInput → Request
  create_requirement_invariant project requirement_id input =
      with_body rt (codes "POST")
        (project_path rt project
          (codes "/requirements/" ++ (rt.encode requirement_id ++ codes "/invariants")))
        input

  unfoldable pub update_requirement_invariant : Str → Str → UpdateInvariantInput → Request
  update_requirement_invariant project invariant_id input =
      with_body rt (codes "PATCH")
        (project_path rt project (codes "/requirements/invariants/" ++ rt.encode invariant_id))
        input

  unfoldable pub delete_requirement_invariant : Str → Str → Request
  delete_requirement_invariant project invariant_id =
      without_body rt (codes "DELETE")
        (project_path rt project (codes "/requirements/invariants/" ++ rt.encode invariant_id))

  unfoldable pub create_acceptance_criterion : Str → Str → CreateCriterionInput → Request
  create_acceptance_criterion project invariant_id input =
      with_body rt (codes "POST")
        (project_path rt project
          (codes "/requirements/invariants/" ++ (rt.encode invariant_id ++ codes "/criteria")))
        input

  unfoldable pub update_acceptance_criterion : Str → Str → UpdateCriterionInput → Request
  update_acceptance_criterion project criterion_id input =
      with_body rt (codes "PATCH")
        (project_path rt project (codes "/requirements/criteria/" ++ rt.encode criterion_id)) input

  unfoldable pub delete_acceptance_criterion : Str → Str → Request
  delete_acceptance_criterion project criterion_id =
      without_body rt (codes "DELETE")
        (project_path rt project (codes "/requirements/criteria/" ++ rt.encode criterion_id))

  unfoldable pub get_requirement_evidence : Str → Str → Request
  get_requirement_evidence project requirement_id = plain rt (
      project_path rt project
        (codes "/requirements/" ++ (rt.encode requirement_id ++ codes "/evidence")))

  unfoldable pub review_requirement_compliance : Str → List Str → Request
  review_requirement_compliance project requirement_ids =
      let params = foldl (append_requirement rt) [] requirement_ids in
      plain rt (project_path rt project (codes "/requirements/compliance?" ++ rt.query params))

  unfoldable pub sync_requirements : Str → Request
  sync_requirements project =
      without_body rt (codes "POST") (project_path rt project (codes "/requirements/sync"))
