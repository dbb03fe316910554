-- ===== src/Api/Settings.antt =====
-- The AI settings (web/src/api/types.ts). A JavaScript number that need not be natural has the
-- parameter `N` for its type.
use mcp_project_server.Prelude.{Bool, Option}
use mcp_project_server.Js.Str.{Str}

pub data AiSettingSource : Type 0 where
  persisted environment default : AiSettingSource

pub record EmbeddingSettings (N : Type 0) : Type 0 where
  pub backend : Str
  pub base_url : Str
  pub model : Str
  pub dimensions : N
  pub batch_size : N
  pub timeout_seconds : N
  pub api_key_configured : Bool
  pub source : AiSettingSource

pub record SummarySettings (N : Type 0) : Type 0 where
  pub backend : Str
  pub base_url : Str
  pub model : Str
  pub timeout_seconds : N
  pub api_key_configured : Bool
  pub source : AiSettingSource

pub record AiSettings (N : Type 0) : Type 0 where
  pub embedding : EmbeddingSettings N
  pub summary : SummarySettings N
  pub reindex_required : Bool

pub record EmbeddingSettingsInput (N : Type 0) : Type 0 where
  pub backend : Str
  pub base_url : Str
  pub model : Str
  pub dimensions : N
  pub batch_size : N
  pub timeout_seconds : N
  pub api_key : Option (Option Str)

pub record SummarySettingsInput (N : Type 0) : Type 0 where
  pub backend : Str
  pub base_url : Str
  pub model : Str
  pub timeout_seconds : N
  pub api_key : Option (Option Str)

pub record AiSettingsInput (N : Type 0) : Type 0 where
  pub embedding : Option (EmbeddingSettingsInput N)
  pub summary : Option (SummarySettingsInput N)
