-- ===== src/PanelSettings.antt =====
-- The settings page of pcs-control-panel-project/artifacts/pcs-control-panel/src/App.tsx: the cards
-- of the two providers (EmbeddingCard, SummaryCard) and of the admin token (AdminTokenCard). `N` is
-- the type of JavaScript numbers, and `show` is `String` of one.
pub mod Saved
pub mod Opened
pub mod AdminToken
mod Tests
use mcp_project_server.Prelude.{
  Bool, true, false, not, ◌&&◌, ◌||◌, Option, none, some, List, [], ◌∷◌, if◌then◌else◌,
}
use mcp_project_server.Js.Str.{Str, codes, str_eq}
use mcp_project_server.Js.Map.{get, put, delete}
use mcp_project_server.Js.Number.{Numbers}
use mcp_project_server.Api.Settings.{
  EmbeddingSettings, SummarySettings, AiSettingsInput, EmbeddingSettingsInput, SummarySettingsInput,
}
use mcp_project_server.Claims.{Storage}

-- The texts of a form.
pub record EmbeddingForm : Type 0 where
  pub backend : Str
  pub base_url : Str
  pub model : Str
  pub dimensions : Str
  pub batch_size : Str
  pub timeout_seconds : Str
  pub api_key : Str

pub record SummaryForm : Type 0 where
  pub backend : Str
  pub base_url : Str
  pub model : Str
  pub timeout_seconds : Str
  pub api_key : Str

-- A card: its form and its error.
pub record Card (F : Type 0) : Type 0 where
  pub form : F
  pub error : Option Str

unfoldable pub embedding_form : {N : Type 0} → (N → Str) → EmbeddingSettings N → EmbeddingForm
embedding_form show settings = record {
  backend = settings.backend;
  base_url = settings.base_url;
  model = settings.model;
  dimensions = show settings.dimensions;
  batch_size = show settings.batch_size;
  timeout_seconds = show settings.timeout_seconds;
  api_key = [];
}

unfoldable pub summary_form : {N : Type 0} → (N → Str) → SummarySettings N → SummaryForm
summary_form show settings = record {
  backend = settings.backend;
  base_url = settings.base_url;
  model = settings.model;
  timeout_seconds = show settings.timeout_seconds;
  api_key = [];
}

-- `...(form.api_key ? { api_key: form.api_key } : {})`
unfoldable pub typed_key : Str → Option (Option Str)
unfolding str_eq
typed_key api_key = if str_eq api_key [] then none else some (some api_key)

-- What a failure shows: the message of an `Error`, or else the fallback.
unfoldable pub failed_with : {F : Type 0} → Option Str → Str → Card F → Card F
failed_with thrown fallback card = record card {
  error = some (elim thrown [ none ↦ fallback | some message ↦ message ]);
}

module _ {N : Type 0} (numbers : Numbers N) where
  -- `!Number.isFinite(n) || n <= 0`
  unfoldable pub not_positive : N → Bool
  not_positive n = not (numbers.is_finite n) || numbers.le n (numbers.literal 0)

  unfoldable pub save_embedding :
      Card EmbeddingForm → Card EmbeddingForm × Option (AiSettingsInput N)
  unfolding typed_key str_eq not_positive
  save_embedding card =
      let form = card.form in
      let dimensions = numbers.number form.dimensions in
      let batch_size = numbers.number form.batch_size in
      let timeout_seconds = numbers.number form.timeout_seconds in
      if str_eq form.base_url []
        || (str_eq form.model []
            || (not_positive dimensions
                || (not_positive batch_size || not_positive timeout_seconds)))
      then (
        record card {
          error = some (codes "All fields are required and numeric fields must be positive.");
        },
        none,
      )
      else (
        record card { error = none },
        some (record {
          embedding = some (record {
            backend = form.backend;
            base_url = form.base_url;
            model = form.model;
            dimensions = dimensions;
            batch_size = batch_size;
            timeout_seconds = timeout_seconds;
            api_key = typed_key form.api_key;
          });
          summary = none;
        }),
      )

  unfoldable pub save_summary : Card SummaryForm → Card SummaryForm × Option (AiSettingsInput N)
  unfolding typed_key str_eq not_positive
  save_summary card =
      let form = card.form in
      let timeout_seconds = numbers.number form.timeout_seconds in
      if str_eq form.base_url [] || (str_eq form.model [] || not_positive timeout_seconds)
      then (
        record card {
          error = some (codes "All fields are required and the timeout must be positive.");
        },
        none,
      )
      else (
        record card { error = none },
        some (record {
          embedding = none;
          summary = some (record {
            backend = form.backend;
            base_url = form.base_url;
            model = form.model;
            timeout_seconds = timeout_seconds;
            api_key = typed_key form.api_key;
          });
        }),
      )

-- The answer to a save clears the key that was typed.
unfoldable pub embedding_saved : Card EmbeddingForm → Card EmbeddingForm
embedding_saved card = record card { form = record (card.form) { api_key = [] } }

unfoldable pub summary_saved : Card SummaryForm → Card SummaryForm
summary_saved card = record card { form = record (card.form) { api_key = [] } }

abbrev pub admin_token_storage_key : Str
admin_token_storage_key = codes "pcs-admin-token"

unfoldable pub read_admin_token : Storage → Option Str
unfolding get
read_admin_token none = none
read_admin_token (some items) = get items admin_token_storage_key

-- `save` of AdminTokenCard
unfoldable pub save_admin_token : Storage → Str → Storage
unfolding put delete str_eq
save_admin_token none token = none
save_admin_token (some items) token =
    if str_eq token []
    then some (delete items admin_token_storage_key)
    else some (put items admin_token_storage_key token)
