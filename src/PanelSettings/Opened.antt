-- ===== src/PanelSettings/Opened.antt =====
-- A card that is opened on the server's settings and saved again.
use mcp_project_server.Prelude.{◌≡◌, ◌≢◌, refl, false, none, some, [], arith}
use mcp_project_server.Js.Str.{Str, str_eq, str_eq_iff}
use mcp_project_server.Js.Number.{Numbers}
use mcp_project_server.Api.Settings.{EmbeddingSettings, SummarySettings, AiSettingsInput}
use mcp_project_server.PanelSettings.{
  EmbeddingForm, SummaryForm, Card, embedding_form, summary_form, typed_key, not_positive,
  save_embedding, save_summary,
}
use mcp_project_server.PanelSettings.Saved.{IsPositive}

-- A change of the settings to what they are, which leaves the saved key as it is.
abbrev pub same_embedding : {N : Type 0} → EmbeddingSettings N → AiSettingsInput N
same_embedding settings = record {
  embedding = some (record {
    backend = settings.backend;
    base_url = settings.base_url;
    model = settings.model;
    dimensions = settings.dimensions;
    batch_size = settings.batch_size;
    timeout_seconds = settings.timeout_seconds;
    api_key = none;
  });
  summary = none;
}

abbrev pub same_summary : {N : Type 0} → SummarySettings N → AiSettingsInput N
same_summary settings = record {
  embedding = none;
  summary = some (record {
    backend = settings.backend;
    base_url = settings.base_url;
    model = settings.model;
    timeout_seconds = settings.timeout_seconds;
    api_key = none;
  });
}

-- A card that is opened on the server's settings.
abbrev pub opened_embedding : {N : Type 0} → (N → Str) → EmbeddingSettings N → Card EmbeddingForm
opened_embedding show settings = record { form = embedding_form show settings; error = none }

abbrev pub opened_summary : {N : Type 0} → (N → Str) → SummarySettings N → Card SummaryForm
opened_summary show settings = record { form = summary_form show settings; error = none }

module _ {N : Type 0} (numbers : Numbers N) (show : N → Str) where
  -- A positive finite number, which `Number` reads back from its text.
  unfoldable pub IsReadBack : N → Type 0
  IsReadBack n = (numbers.number (show n) ≡ n) × IsPositive numbers n

  pub record IsUsableEmbedding (settings : EmbeddingSettings N) : Type 0 where
    pub named : (settings.base_url ≢ []) × (settings.model ≢ [])
    pub dimensions : IsReadBack settings.dimensions
    pub batch_size : IsReadBack settings.batch_size
    pub timeout_seconds : IsReadBack settings.timeout_seconds

  pub record IsUsableSummary (settings : SummarySettings N) : Type 0 where
    pub named : (settings.base_url ≢ []) × (settings.model ≢ [])
    pub timeout_seconds : IsReadBack settings.timeout_seconds

  given : (s : Str) → s ≢ [] → str_eq s [] ≡ false
  given s h = ground (arith, str_eq_iff s [])

  accepted : (n : N) → IsReadBack n → not_positive numbers n ≡ false
  unfolding IsReadBack IsPositive not_positive
  accepted n h = ground (arith, h.1.0, h.1.1)

  read_back : (n : N) → IsReadBack n → numbers.number (show n) ≡ n
  unfolding IsReadBack
  read_back n h = h.0

  opened_embedding-save :
      (settings : EmbeddingSettings N)
      → IsUsableEmbedding settings
      → save_embedding numbers (opened_embedding show settings)
        ≡ (opened_embedding show settings, some (same_embedding settings))
  unfolding save_embedding embedding_form typed_key str_eq
  opened_embedding-save settings usable =
      rw
        (
          read_back settings.dimensions usable.dimensions,
          read_back settings.batch_size usable.batch_size,
          read_back settings.timeout_seconds usable.timeout_seconds,
          given settings.base_url usable.named.0,
          given settings.model usable.named.1,
          accepted settings.dimensions usable.dimensions,
          accepted settings.batch_size usable.batch_size,
          accepted settings.timeout_seconds usable.timeout_seconds,
        )
        refl

  opened_summary-save :
      (settings : SummarySettings N)
      → IsUsableSummary settings
      → save_summary numbers (opened_summary show settings)
        ≡ (opened_summary show settings, some (same_summary settings))
  unfolding save_summary summary_form typed_key str_eq
  opened_summary-save settings usable =
      rw
        (
          read_back settings.timeout_seconds usable.timeout_seconds,
          given settings.base_url usable.named.0,
          given settings.model usable.named.1,
          accepted settings.timeout_seconds usable.timeout_seconds,
        )
        refl

  -- A card that is opened on settings with a URL, a model and positive finite numbers, each of
  -- which `Number` reads back from its text, and that is saved as it stands, sends every setting as
  -- it is and no key, shows no error and keeps its form.
  pub opened_cards-save :
      (embedding : EmbeddingSettings N) (summary : SummarySettings N)
      → IsUsableEmbedding embedding
      → IsUsableSummary summary
      → (save_embedding numbers (opened_embedding show embedding)
          ≡ (opened_embedding show embedding, some (same_embedding embedding)))
        × (save_summary numbers (opened_summary show summary)
            ≡ (opened_summary show summary, some (same_summary summary)))
  opened_cards-save embedding summary e s =
      (opened_embedding-save embedding e, opened_summary-save summary s)
