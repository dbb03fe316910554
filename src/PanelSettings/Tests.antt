-- ===== src/PanelSettings/Tests.antt =====
-- The cards of the settings on small inputs, with decimal numbers.
use mcp_project_server.Prelude.{ℕ, ◌+◌, ◌≡◌, refl, true, Option, none, some, [], ◌∷◌}
use mcp_project_server.Js.Str.{Str, codes, str_eq}
use mcp_project_server.Js.Map.{get}
use mcp_project_server.Js.Number.{decimals}
use mcp_project_server.Fetch.Media.{Runtime}
use mcp_project_server.Fetch.Bodies.{json_type, ◌>>=◌}
use mcp_project_server.Fetch.Requests.{
  Config, Options, Prepared, absent, path, prepare, set_admin_token_getter,
}
use mcp_project_server.PanelSettings.{
  EmbeddingForm, SummaryForm, Card, save_embedding, save_summary, save_admin_token,
  read_admin_token,
}
use mcp_project_server.PanelSettings.Saved.{IsPositive}
use mcp_project_server.PanelSettings.Opened.{
  IsReadBack, opened_embedding, opened_summary, same_embedding, same_summary, opened_cards-save,
}
use mcp_project_server.Api.Settings.{AiSettingSource, EmbeddingSettings, SummarySettings}
use mcp_project_server.PanelSettings.AdminToken.{saved_admin_token-prepare}

abbrev embedding : Card EmbeddingForm
embedding = record {
  form = record {
    backend = codes "hashing";
    base_url = codes "u";
    model = codes "m";
    dimensions = codes "64";
    batch_size = codes "8";
    timeout_seconds = codes "30";
    api_key = [];
  };
  error = none;
}

abbrev summary : Card SummaryForm
summary = record {
  form = record {
    backend = codes "openai";
    base_url = codes "u";
    model = codes "m";
    timeout_seconds = codes "0";
    api_key = codes "k";
  };
  error = none;
}

refused_timeout : save_summary decimals summary ≡ (
  record summary {
    error = some (codes "All fields are required and the timeout must be positive.");
  },
  none,
)
unfolding save_summary
refused_timeout = refl

-- Numbers of one digit, as texts.
abbrev shown : Option ℕ → Str
shown none = codes "NaN"
shown (some n) = (48 + n) ∷ []

abbrev small_embedding : EmbeddingSettings (Option ℕ)
small_embedding = record {
  backend = codes "hashing";
  base_url = codes "u";
  model = codes "m";
  dimensions = some 8;
  batch_size = some 4;
  timeout_seconds = some 9;
  api_key_configured = true;
  source = AiSettingSource.default;
}

abbrev small_summary : SummarySettings (Option ℕ)
small_summary = record {
  backend = codes "openai";
  base_url = codes "u";
  model = codes "m";
  timeout_seconds = some 5;
  api_key_configured = true;
  source = AiSettingSource.default;
}

opened_cards-save_example :
    (save_embedding decimals (opened_embedding shown small_embedding)
      ≡ (opened_embedding shown small_embedding, some (same_embedding small_embedding)))
    × (save_summary decimals (opened_summary shown small_summary)
        ≡ (opened_summary shown small_summary, some (same_summary small_summary)))
unfolding IsReadBack IsPositive
opened_cards-save_example =
    opened_cards-save decimals shown small_embedding small_summary
      (record {
        named = ((λ e. absurd (cc)), (λ e. absurd (cc)));
        dimensions = (refl, (refl, refl));
        batch_size = (refl, (refl, refl));
        timeout_seconds = (refl, (refl, refl));
      })
      (record {
        named = ((λ e. absurd (cc)), (λ e. absurd (cc)));
        timeout_seconds = (refl, (refl, refl));
      })

cleared_token :
    read_admin_token (save_admin_token (save_admin_token (some []) (codes "s")) []) ≡ none
unfolding read_admin_token save_admin_token
cleared_token = refl

abbrev runtime : Runtime ℕ
runtime = record {
  to_lower = λ s. s;
  to_upper = λ s. s;
  show = λ n. [];
  parse_json = λ s. none;
  normalize_url = λ s. s;
}

abbrev config : Config
config = record { base_url = none; auth_token_getter = none; admin_token_getter = none }

abbrev options : Options
options = record { method = none; headers = []; body = absent; response_type = json_type }

abbrev prepared : Prepared
prepared = record {
  input = path (codes "/api/projects");
  method = codes "GET";
  headers =
      (codes "accept", codes "application/json, application/problem+json")
      ∷ (codes "x-pcs-admin-token", codes "s")
      ∷ [];
  body = absent;
}

saved_admin_token-prepare_example :
    get prepared.headers (codes "x-pcs-admin-token") ≡ some (codes "s")
unfolding prepare get ◌>>=◌ set_admin_token_getter str_eq read_admin_token save_admin_token
saved_admin_token-prepare_example =
    saved_admin_token-prepare {B = ℕ} runtime config [] (codes "s") (codes "/api/projects") options
      prepared (λ e. absurd (cc)) refl refl refl
