-- ===== src/Api/Compliance.antt =====
-- Requirement contracts, their evidence and the compliance review (web/src/api/types.ts).
use mcp_project_server.Prelude.{ℕ, Bool, List, Option}
use mcp_project_server.Js.Str.{Str}
use mcp_project_server.Api.Types.{RequirementStatus}

pub data ValidationState : Type 0 where
  ok stale not_configured : ValidationState

pub data IndependentReviewState : Type 0 where
  passed failed not_configured : IndependentReviewState

pub record RequirementInvariant : Type 0 where
  pub id : Str
  pub project_id : Str
  pub requirement_id : Str
  pub key : Str
  pub statement : Str
  pub kind : Str
  pub risk : Str
  pub sort_order : ℕ
  pub status : Str
  pub author : Str
  pub created_at : Str
  pub updated_at : Str

pub record AcceptanceCriterion : Type 0 where
  pub id : Str
  pub project_id : Str
  pub invariant_id : Str
  pub key : Str
  pub statement : Str
  pub evidence_kind : Str
  pub required : Bool
  pub independent_review : Str
  pub sort_order : ℕ
  pub status : Str
  pub author : Str
  pub created_at : Str
  pub updated_at : Str

pub data ContractInclude : Type 0 where
  invariants criteria both : ContractInclude

pub record RequirementContract : Type 0 where
  pub requirement_id : Str
  pub req_key : Option Str
  pub headline : Str
  pub include : ContractInclude
  pub invariants : List RequirementInvariant
  pub criteria : List AcceptanceCriterion

pub record CreateInvariantInput : Type 0 where
  pub statement : Str
  pub kind : Str
  pub risk : Str
  pub key : Option Str
  pub sort_order : Option ℕ

pub record UpdateInvariantInput : Type 0 where
  pub statement : Option Str
  pub kind : Option Str
  pub risk : Option Str
  pub key : Option Str
  pub sort_order : Option ℕ

pub record CreateCriterionInput : Type 0 where
  pub statement : Str
  pub evidence_kind : Str
  pub key : Option Str
  pub required : Option Bool
  pub independent_review : Option Str
  pub sort_order : Option ℕ

pub record UpdateCriterionInput : Type 0 where
  pub statement : Option Str
  pub evidence_kind : Option Str
  pub required : Option Bool
  pub independent_review : Option Str
  pub key : Option Str
  pub sort_order : Option ℕ

pub data ExceptionKind : Type 0 where
  missing stale blocking review_missing review_failed review_stale : ExceptionKind

pub record RequirementComplianceException : Type 0 where
  pub kind : ExceptionKind
  pub criterion_id : Option Str
  pub criterion_key : Option Str
  pub violation_id : Option Str
  pub invariant_id : Str
  pub invariant_key : Str
  pub file_refs : List Str
  pub summary : Option Str

pub data Verdict : Type 0 where
  verified failed not_configured : Verdict

pub record RequirementComplianceRow : Type 0 where
  pub requirement_id : Str
  pub req_key : Option Str
  pub status : RequirementStatus
  pub configured : Bool
  pub verdict : Verdict
  pub ac_verified : ℕ
  pub ac_total : ℕ
  pub validation : ValidationState
  pub review : IndependentReviewState
  pub exceptions : List RequirementComplianceException
  pub omitted_exceptions : ℕ

pub record ComplianceLimits : Type 0 where
  pub requirements : ℕ
  pub exceptions_per_requirement : ℕ

pub record RequirementComplianceResponse : Type 0 where
  pub project_id : Str
  pub requirements : List RequirementComplianceRow
  pub reviewed_count : ℕ
  pub omitted_requirements : ℕ
  pub limits : ComplianceLimits
