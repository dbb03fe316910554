-- ===== src/Api/Requirements.antt =====
-- The requirements and their file (web/src/api/types.ts).
use mcp_project_server.Prelude.{ℕ, Bool, List, Option}
use mcp_project_server.Js.Str.{Str}
use mcp_project_server.Api.Types.{Entry, RequirementStatus}

pub record ReconciliationNote : Type 0 where
  pub req_key : Str
  pub message : Str

pub record RequirementsFileSync : Type 0 where
  pub path : Str
  pub written : Bool
  pub writable : Bool
  pub errors : List Str
  pub reconciliations : List ReconciliationNote

pub record Requirement : Type 0 where
  pub req_key : Str
  pub entry_id : Str
  pub title : Str
  pub status : RequirementStatus
  pub lifecycle : Str
  pub linked_files : List Str

pub record RequirementsResponse : Type 0 where
  pub requirements : List Requirement
  pub done_count : ℕ
  pub total_count : ℕ

pub record SyncReport : Type 0 where
  pub project_id : Str
  pub project_name : Str
  pub file_path : Str
  pub ok : Bool
  pub file_existed : Bool
  pub file_written : Bool
  pub file_writable : Bool
  pub created : List Str
  pub updated : List Str
  pub archived : List Str
  pub written_back : List Str
  pub reconciliations : List ReconciliationNote
  pub errors : List Str
  pub requirements : List Requirement
  pub done_count : ℕ
  pub total_count : ℕ

-- The intersection of `Entry` and the optional report.
pub record EntryWriteResponse : Type 0 where
  pub entry : Entry
  pub requirements_file : Option RequirementsFileSync
