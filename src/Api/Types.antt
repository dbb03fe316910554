-- ===== src/Api/Types.antt =====
-- The shapes of the context entries and of the code map (web/src/api/types.ts). Counts and sizes
-- are natural numbers; an absent optional field and a `null` are both `none`.
use mcp_project_server.Prelude.{ℕ, Bool, List, Option}
use mcp_project_server.Js.Str.{Str}
use mcp_project_server.Js.Map.{Map}

-- `opened` is the source's "open".
pub data EntryLifecycle : Type 0 where
  opened resolved deleted archived : EntryLifecycle

pub data RequirementStatus : Type 0 where
  not_started in_progress blocked done : RequirementStatus

pub record Entry : Type 0 where
  pub id : Str
  pub project_id : Str
  pub section : Str
  pub headline : Str
  pub detail : Str
  pub status : EntryLifecycle
  pub priority : ℕ
  pub author : Str
  pub created_at : Str
  pub updated_at : Str
  pub requirement_status : Option RequirementStatus
  pub linked_files : List Str
  pub related_entry_id : Option Str
  pub req_key : Option Str

pub record CodeMapOverlay : Type 0 where
  pub focus : ℕ
  pub blockers : ℕ
  pub bugs : ℕ
  pub requirements : ℕ
  pub hot : Bool

pub data CodeMapNodeKind : Type 0 where
  directory file symbol external : CodeMapNodeKind

pub record CodeMapNode : Type 0 where
  pub id : Str
  pub kind : CodeMapNodeKind
  pub path : Str
  pub label : Str
  pub language : Option Str
  pub loc : ℕ
  pub size_bytes : ℕ
  pub file_count : ℕ
  pub symbol_count : ℕ
  pub fan_in : ℕ
  pub fan_out : ℕ
  pub has_children : Bool
  pub outside_scope : Bool
  pub overlay : CodeMapOverlay
  pub symbol_kind : Option Str
  pub start_line : Option ℕ
  pub end_line : Option ℕ
  pub signature : Option Str

pub record CodeMapEdge : Type 0 where
  pub source : Str
  pub target : Str
  pub kind : Str
  pub weight : ℕ

pub record CodeMapProvenance : Type 0 where
  pub indexed : Bool
  pub last_full_at : Option Str
  pub last_incremental_at : Option Str
  pub last_commit : Option Str
  pub symbol_modes : Option (Map Str)

pub record CodeMapStats : Type 0 where
  pub total_files : Option ℕ
  pub total_resolved_edges : Option ℕ
  pub node_count : ℕ
  pub edge_count : ℕ
  pub truncated : Bool

pub data ScopeKind : Type 0 where
  directory file : ScopeKind

pub record CodeMap : Type 0 where
  pub project : Str
  pub project_name : Str
  pub scope : Option Str
  pub scope_kind : ScopeKind
  pub depth : ℕ
  pub generated_from : CodeMapProvenance
  pub nodes : List CodeMapNode
  pub edges : List CodeMapEdge
  pub dependencies : Option (List Str)
  pub dependents : Option (List Str)
  pub stats : CodeMapStats
  pub overlay_legend : List Str
