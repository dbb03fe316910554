-- ===== src/Api/Projects.antt =====
-- Projects, sections and the exports of a project (web/src/api/types.ts, client.ts).
use mcp_project_server.Prelude.{ℕ, List, Option}
use mcp_project_server.Js.Str.{Str}
use mcp_project_server.Api.Types.{Entry, RequirementStatus}

pub record Project : Type 0 where
  pub id : Str
  pub name : Str
  pub root_path : Str
  pub status_line : Str
  pub briefing_token_budget : ℕ
  pub prepare_task_token_budget : ℕ
  pub headline_max_chars : ℕ
  pub detail_max_chars : ℕ
  pub expiry_policy : Str
  pub expiry_days : Option ℕ

pub record Briefing : Type 0 where
  pub project : Str
  pub briefing : Str

pub record RegisterProjectInput : Type 0 where
  pub name : Str
  pub root_path : Str
  pub overview : Str

pub record Health : Type 0 where
  pub status : Str
  pub bind_mode : Str
  pub bind_host : Str

pub data DashboardSection : Type 0 where
  overview focus blockers bugs conventions decisions : DashboardSection

pub record SectionResponse : Type 0 where
  pub section : Str
  pub entries : List Entry

pub record EntryInput : Type 0 where
  pub section : Option Str
  pub headline : Option Str
  pub detail : Option Str
  pub priority : Option ℕ
  pub status : Option RequirementStatus
  pub linked_files : Option (List Str)

pub data ExportFormat : Type 0 where
  markdown json : ExportFormat

pub record ExportedProject : Type 0 where
  pub id : Str
  pub name : Str
  pub root_path : Str

pub record ProjectContextExport : Type 0 where
  pub format : ExportFormat
  pub filename : Str
  pub media_type : Str
  pub content : Str
  pub project : ExportedProject
  pub exported_at : Str
