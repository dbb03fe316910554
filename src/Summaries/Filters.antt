-- ===== src/Summaries/Filters.antt =====
-- The requirements page and the load errors of
-- pcs-control-panel-project/artifacts/pcs-control-panel/src/App.tsx.
use mcp_project_server.Prelude.{
  ◌≡◌, refl, ℕ, Bool, true, false, Option, none, some, List, [], ◌∷◌, ◌++◌, map, filter, foldl,
  length, ltb,
}
use mcp_project_server.Js.Str.{Str, codes}
use mcp_project_server.Js.Set.{add}
use mcp_project_server.Js.Map.{Map, put}
use mcp_project_server.Api.Types.{RequirementStatus}
use mcp_project_server.Api.Requirements.{Requirement}
use mcp_project_server.Api.Compliance.{RequirementComplianceRow}

pub data RequirementStatusFilter : Type 0 where
  all not_started in_progress done : RequirementStatusFilter

-- `r.status === filter`
abbrev pub passes : RequirementStatusFilter → RequirementStatus → Bool
passes all _ = true
passes not_started RequirementStatus.not_started = true
passes in_progress RequirementStatus.in_progress = true
passes done RequirementStatus.done = true
passes _ _ = false

pub record StatusCounts : Type 0 where
  pub all : ℕ
  pub not_started : ℕ
  pub in_progress : ℕ
  pub done : ℕ

unfoldable pub status_counts : List Requirement → StatusCounts
status_counts reqs = record {
  all = length reqs;
  not_started = length (filter (λ r. passes RequirementStatusFilter.not_started r.status) reqs);
  in_progress = length (filter (λ r. passes RequirementStatusFilter.in_progress r.status) reqs);
  done = length (filter (λ r. passes RequirementStatusFilter.done r.status) reqs);
}

unfoldable pub filtered_reqs : RequirementStatusFilter → List Requirement → List Requirement
filtered_reqs RequirementStatusFilter.all reqs = reqs
filtered_reqs chosen reqs = filter (λ r. passes chosen r.status) reqs

abbrev count_of : StatusCounts → RequirementStatusFilter → ℕ
count_of counts RequirementStatusFilter.all = counts.all
count_of counts RequirementStatusFilter.not_started = counts.not_started
count_of counts RequirementStatusFilter.in_progress = counts.in_progress
count_of counts RequirementStatusFilter.done = counts.done

unfoldable pub compliance_by_id : List RequirementComplianceRow → Map RequirementComplianceRow
unfolding put
compliance_by_id rows = foldl (λ m row. put m row.requirement_id row) [] rows

-- The number at each filter is the number of requirements that it shows.
pub status_counts-filtered_reqs :
    (chosen : RequirementStatusFilter) (reqs : List Requirement)
    → count_of (status_counts reqs) chosen ≡ length (filtered_reqs chosen reqs)
unfolding status_counts filtered_reqs
status_counts-filtered_reqs RequirementStatusFilter.all reqs = refl
status_counts-filtered_reqs RequirementStatusFilter.not_started reqs = refl
status_counts-filtered_reqs RequirementStatusFilter.in_progress reqs = refl
status_counts-filtered_reqs RequirementStatusFilter.done reqs = refl

-- A query as the pages read it: the message of its error, where that is an `Error`.
pub record QueryLike : Type 0 where
  pub is_error : Bool
  pub error : Option Str

abbrev message_of : QueryLike → Str
message_of q = elim q.error [ none ↦ codes "Request failed." | some message ↦ message ]

abbrev spaced : List Str → Str
spaced [] = []
spaced (s ∷ []) = s
spaced (s ∷ t ∷ rest) = s ++ (codes " " ++ spaced (t ∷ rest))

-- `combineQueryErrors`: whether a query failed, the messages without repetition, and what a retry
-- fetches again.
unfoldable pub combine_query_errors : List QueryLike → Bool × Str × List QueryLike
unfolding add
combine_query_errors queries =
    let failed = filter (λ q. q.is_error) queries in
    (
      ltb 0 (length failed),
      spaced (foldl (λ set message. add set message) [] (map message_of failed)),
      failed,
    )
