-- ===== src/Api/Evidence.antt =====
-- The evidence of a requirement (web/src/api/types.ts).
use mcp_project_server.Prelude.{ℕ, Bool, List}
use mcp_project_server.Js.Str.{Str}
use mcp_project_server.Js.Map.{Map}

pub data EvidenceResult : Type 0 where
  passed failed manual_pending : EvidenceResult

pub record RequirementEvidence : Type 0 where
  pub id : Str
  pub criterion_id : Str
  pub contract_revision_id : Str
  pub kind : Str
  pub result : EvidenceResult
  pub source_commit : Str
  pub file_refs : List Str
  pub seq : ℕ

pub data Severity : Type 0 where
  blocking warning : Severity

-- `opened` is the source's "open".
pub data ViolationStatus : Type 0 where
  opened resolved : ViolationStatus

pub record RequirementViolation : Type 0 where
  pub id : Str
  pub invariant_id : Str
  pub severity : Severity
  pub status : ViolationStatus
  pub summary : Str
  pub file_refs : List Str

pub record RequirementCloseGate : Type 0 where
  pub requirement_id : Str
  pub configured : Bool
  pub passed : Bool
  pub unmet : List Str
  pub ac_verified : ℕ
  pub ac_total : ℕ
  pub missing : List (Map Str)
  pub stale : List (Map Str)
  pub blocking : List (Map Str)
  pub validation : Str
  pub review : Str

pub record EvidenceLimits : Type 0 where
  pub evidence : ℕ
  pub violations : ℕ

pub record RequirementEvidenceResponse : Type 0 where
  pub requirement_id : Str
  pub evidence : List RequirementEvidence
  pub violations : List RequirementViolation
  pub close_gate : RequirementCloseGate
  pub evidence_total : ℕ
  pub evidence_omitted : ℕ
  pub violations_total : ℕ
  pub violations_omitted : ℕ
  pub limits : EvidenceLimits
