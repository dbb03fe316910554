-- ===== src/Compliance.antt =====
-- web/src/hooks/useRequirementCompliance.ts: the compliance review of many requirements, in
-- batches that the server accepts.
pub mod Batches
pub mod Complete
pub mod Labels
mod Tests
use mcp_project_server.Prelude.{
  ℕ, zero, suc, ◌+◌, Bool, not, ◌&&◌, Option, none, some, List, [], ◌∷◌, ◌++◌, map, length, take,
  drop, concat, ltb, foldl, if◌then◌else◌,
}
use mcp_project_server.Js.Str.{Str, codes, str_eq}
use mcp_project_server.Api.Compliance.{
  RequirementComplianceResponse, RequirementComplianceRow, ComplianceLimits,
}
use mcp_project_server.Client.Request.{Request}
use mcp_project_server.Client.Endpoints.{Runtime}
use mcp_project_server.Client.Requirements.{review_requirement_compliance}

abbrev pub batch_size : ℕ
batch_size = 25

-- What the hook's query gives: the fields of a response, and the errors.
pub record RequirementComplianceAggregate : Type 0 where
  pub response : RequirementComplianceResponse
  pub errors : List Str

-- The loop of `chunksOf` from an index on. Every round but the last adds a chunk, so that the
-- number of identifiers is fuel enough.
unfoldable pub chunks_from : ℕ → ℕ → List Str → List (List Str)
chunks_from zero index ids = []
chunks_from (suc fuel) index ids =
    let rest = chunks_from fuel (index + batch_size) ids in
    if ltb index (length ids) then take batch_size (drop index ids) ∷ rest else []

unfoldable pub chunks_of : List Str → List (List Str)
unfolding chunks_from
chunks_of ids = chunks_from (length ids) 0 ids

-- The results of `Promise.allSettled`: `none` is a rejection.
unfoldable pub successful : {A : Type 0} → List (Option A) → List A
successful [] = []
successful (none ∷ results) = successful results
successful (some r ∷ results) = r ∷ successful results

abbrev pub batch_error : (ℕ → Str) → ℕ → Str
batch_error show number =
    codes "Compliance batch " ++ (show number ++ codes " could not be loaded.")

unfoldable pub batch_errors : {A : Type 0} → (ℕ → Str) → ℕ → List (Option A) → List Str
batch_errors show index [] = []
batch_errors show index (none ∷ results) =
    batch_error show (index + 1) ∷ batch_errors show (index + 1) results
batch_errors show index (some _ ∷ results) = batch_errors show (index + 1) results

-- `successful[0]?.project_id ?? ""`, and the limits.
abbrev pub first_project : List RequirementComplianceResponse → Str
first_project [] = []
first_project (r ∷ _) = r.project_id

abbrev first_limits : List RequirementComplianceResponse → ComplianceLimits
first_limits [] = record { requirements = batch_size; exceptions_per_requirement = 0 }
first_limits (r ∷ _) = r.limits

unfoldable pub aggregate :
    (ℕ → Str) → List (Option RequirementComplianceResponse) → RequirementComplianceAggregate
unfolding successful batch_errors
aggregate show results =
    let good = successful results in
    record {
      response = record {
        project_id = first_project good;
        requirements = concat (map (λ r. r.requirements) good);
        reviewed_count = foldl (λ total r. total + r.reviewed_count) 0 good;
        omitted_requirements = foldl (λ total r. total + r.omitted_requirements) 0 good;
        limits = first_limits good;
      };
      errors = batch_errors show 0 results;
    }

-- `loadCompliance`. `review` is how a call of the client ends; `none` where it is rejected.
unfoldable pub load_compliance :
    Runtime
    → (Request → Option RequirementComplianceResponse)
    → Str
    → List Str
    → RequirementComplianceAggregate
unfolding chunks_of aggregate
load_compliance rt review project requirement_ids =
    aggregate rt.show (
      map (λ ids. review (review_requirement_compliance rt project ids))
        (chunks_of requirement_ids))

-- `enabled` of the hook's query.
abbrev is_enabled : Str → List Str → Bool
is_enabled project ids = not (str_eq project []) && ltb 0 (length ids)
