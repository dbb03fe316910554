-- ===== src/Compliance/Tests.antt =====
-- Compliance reviews of a few requirements.
use mcp_project_server.Prelude.{
  inr, some, sym, inl, true, subst, ◌↔◌, ◌≤◌, arith, In, ℕ, zero, suc, ◌≡◌, refl, none, List, [],
  ◌∷◌, map, length,
}
use mcp_project_server.Js.Str.{Str, codes}
use mcp_project_server.Client.Endpoints.{Runtime}
use mathlib.Core.Option.{some-injective}
use mcp_project_server.Api.Compliance.{
  Verdict, ValidationState, IndependentReviewState, RequirementComplianceRow,
  RequirementComplianceResponse,
}
use mcp_project_server.Api.Types.{RequirementStatus}
use mcp_project_server.Compliance.Complete.{HasRows, reviewed, load_compliance_complete}
use mcp_project_server.Compliance.{chunks_of, load_compliance}
use mcp_project_server.Compliance.Batches.{IsBatched, chunks_of-IsBatched}

abbrev ids_of : ℕ → List Str
ids_of zero = []
ids_of (suc n) = codes "r" ∷ ids_of n

chunk_sizes : map length (chunks_of (ids_of 53)) ≡ 25 ∷ 25 ∷ 3 ∷ []
unfolding chunks_of
chunk_sizes = refl

abbrev rt : Runtime
rt = record { encode = λ s. s; query = λ m. []; show = λ n. codes "1"; stringify = λ {A} a. [] }

errors_of_failure :
    (load_compliance rt (λ r. none) (codes "p") (ids_of 2)).errors
    ≡ codes "Compliance batch 1 could not be loaded." ∷ []
unfolding load_compliance
errors_of_failure = refl

chunks_of-IsBatched_example : IsBatched (ids_of 53) (chunks_of (ids_of 53))
chunks_of-IsBatched_example = chunks_of-IsBatched (ids_of 53)

abbrev row : Str → RequirementComplianceRow
row id = record {
  requirement_id = id;
  req_key = none;
  status = RequirementStatus.done;
  configured = true;
  verdict = Verdict.verified;
  ac_verified = 1;
  ac_total = 1;
  validation = ValidationState.ok;
  review = IndependentReviewState.passed;
  exceptions = [];
  omitted_exceptions = 0;
}

abbrev two_ids : List Str
two_ids = codes "b" ∷ codes "a" ∷ []

-- The server's rows stand in the order of the identifiers.
abbrev sorted_rows : RequirementComplianceResponse
sorted_rows = record {
  project_id = codes "p";
  requirements = row (codes "a") ∷ row (codes "b") ∷ [];
  reviewed_count = 2;
  omitted_requirements = 0;
  limits = record { requirements = 25; exceptions_per_requirement = 20 };
}

sorted-HasRows : HasRows two_ids sorted_rows
sorted-HasRows id = ((λ m. ground (arith, m)), (λ m. ground (arith, m)))

is_answered :
    (batch : List Str) (r : RequirementComplianceResponse)
    → In batch (chunks_of two_ids)
    → length batch ≤ 25
    → some sorted_rows ≡ some r
    → HasRows batch r
unfolding chunks_of
is_answered batch r (inl e) few done =
    subst (λ (b : List Str). HasRows b r) (sym e)
      (subst (λ (a : RequirementComplianceResponse). HasRows two_ids a) (some-injective _ _ done)
        sorted-HasRows)
is_answered batch r (inr m) few done = absurd m

load_compliance_complete_example :
    In
      (codes "a")
      (reviewed (load_compliance rt (λ r. some sorted_rows) (codes "p") two_ids).response)
    ↔ In (codes "a") two_ids
unfolding load_compliance
load_compliance_complete_example =
    load_compliance_complete rt (λ r. some sorted_rows) (codes "p") two_ids is_answered refl
      (codes "a")
