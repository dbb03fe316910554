-- ===== src/Api/Search.antt =====
-- Source files, code search and the index (web/src/api/types.ts). A score is of the type `N`.
use mcp_project_server.Prelude.{ℕ, Bool, List, Option}
use mcp_project_server.Js.Str.{Str}

pub record SkippedFile : Type 0 where
  pub path : Str
  pub reason : Str

pub record SourceFile : Type 0 where
  pub path : Str
  pub language : Option Str
  pub content : Str
  pub truncated : Bool

pub record SearchHit (N : Type 0) : Type 0 where
  pub path : Str
  pub start_line : ℕ
  pub end_line : ℕ
  pub snippet : Str
  pub score : N
  pub matched_mode : Str
  pub retrieval_modes : Option (List Str)
  pub stale : Bool
  pub symbol : Option Str
  pub kind : Str
  pub language : Option Str

pub record SearchResponse (N : Type 0) : Type 0 where
  pub hits : List (SearchHit N)
  pub semantic_available : Bool
  pub mode : Str
  pub note : Option Str

pub record IndexStatus : Type 0 where
  pub project_id : Str
  pub project_name : Str
  pub state : Str
  pub last_full_at : Option Str
  pub last_incremental_at : Option Str
  pub last_commit : Option Str
  pub file_count : ℕ
  pub chunk_count : ℕ
  pub skipped_count : ℕ
  pub skipped : List SkippedFile
  pub semantic_available : Bool
  pub semantic_note : Option Str

pub data SearchScope : Type 0 where
  project subtree files focus : SearchScope

pub record SearchOptions : Type 0 where
  pub scope : Option SearchScope
  pub subtree : Option Str
  pub limit : Option ℕ
