-- ===== src/Client/Settings.antt =====
-- `parseAiSettings` of web/src/api/client.ts: the check of the AI settings' response.
pub mod Accepted
pub mod Parsed
use mcp_project_server.Prelude.{
  [], Bool, true, false, not, ◌||◌, Option, none, some, ◌++◌, if◌then◌else◌,
}
use mcp_project_server.Js.Str.{Str, codes, str_eq}
use mcp_project_server.Js.Json.{Json, property}
use mcp_project_server.Api.Settings.{
  AiSettings, AiSettingSource, EmbeddingSettings, SummarySettings,
}
use mcp_project_server.Client.Request.{ApiError, Outcome, value, api_error, runtime_error}

infixl 10 ◌>>=◌
unfoldable pub ◌>>=◌ : {N A B : Type 0} → Outcome N A → (A → Outcome N B) → Outcome N B
value a >>= f = f a
api_error e >>= f = api_error e
runtime_error >>= f = runtime_error

module _ {N : Type 0} where
  abbrev pub invalid : {A : Type 0} → Str → Outcome N A
  invalid detail = api_error (record {
    status = 502;
    message = Json.string (codes "Invalid AI settings response" ++ detail);
    available = none;
  })

  unfoldable pub is_record : Json N → Bool
  is_record (Json.object _) = true
  is_record _ = false

  -- `isRecord` of a property that may be missing
  abbrev pub record_or_null : Option (Json N) → Json N
  record_or_null none = Json.null
  record_or_null (some v) = v

  abbrev pub string_of : Str → Option (Json N) → Outcome N Str
  string_of key (some (Json.string s)) = value s
  string_of key _ = invalid (codes ": " ++ key)

  unfoldable pub expect_string : Json N → Str → Outcome N Str
  expect_string r key = string_of key (property r key)

  abbrev pub boolean_of : Str → Option (Json N) → Outcome N Bool
  boolean_of key (some (Json.boolean b)) = value b
  boolean_of key _ = invalid (codes ": " ++ key)

  unfoldable pub expect_boolean : Json N → Str → Outcome N Bool
  expect_boolean r key = boolean_of key (property r key)

  abbrev pub source_named : Str → Outcome N AiSettingSource
  source_named s =
      if str_eq s (codes "persisted")
      then value AiSettingSource.persisted
      else if str_eq s (codes "environment")
      then value AiSettingSource.environment
      else if str_eq s (codes "default")
      then value AiSettingSource.default
      else invalid (codes ": source")

  abbrev pub source_of : Option (Json N) → Outcome N AiSettingSource
  source_of (some (Json.string s)) = source_named s
  source_of _ = invalid (codes ": source")

  unfoldable pub expect_source : Json N → Outcome N AiSettingSource
  expect_source r = source_of (property r (codes "source"))

  -- `is_finite` is `Number.isFinite`.
  module _ (is_finite : N → Bool) where
    abbrev pub number_of : Str → Option (Json N) → Outcome N N
    number_of key (some (Json.number n)) =
        if is_finite n then value n else invalid (codes ": " ++ key)
    number_of key _ = invalid (codes ": " ++ key)

    unfoldable pub expect_number : Json N → Str → Outcome N N
    expect_number r key = number_of key (property r key)

    unfoldable pub parse_embedding : Json N → Outcome N (EmbeddingSettings N)
    parse_embedding r = do
      backend ← expect_string r (codes "backend")
      base_url ← expect_string r (codes "base_url")
      model ← expect_string r (codes "model")
      dimensions ← expect_number r (codes "dimensions")
      batch_size ← expect_number r (codes "batch_size")
      timeout_seconds ← expect_number r (codes "timeout_seconds")
      api_key_configured ← expect_boolean r (codes "api_key_configured")
      source ← expect_source r
      value (record {
        backend = backend;
        base_url = base_url;
        model = model;
        dimensions = dimensions;
        batch_size = batch_size;
        timeout_seconds = timeout_seconds;
        api_key_configured = api_key_configured;
        source = source;
      })

    unfoldable pub parse_summary : Json N → Outcome N (SummarySettings N)
    parse_summary r = do
      backend ← expect_string r (codes "backend")
      base_url ← expect_string r (codes "base_url")
      model ← expect_string r (codes "model")
      timeout_seconds ← expect_number r (codes "timeout_seconds")
      api_key_configured ← expect_boolean r (codes "api_key_configured")
      source ← expect_source r
      value (record {
        backend = backend;
        base_url = base_url;
        model = model;
        timeout_seconds = timeout_seconds;
        api_key_configured = api_key_configured;
        source = source;
      })

    unfoldable pub parse_ai_settings : Json N → Outcome N (AiSettings N)
    unfolding is_record
    parse_ai_settings v =
        let embedding = record_or_null (property v (codes "embedding")) in
        let summary = record_or_null (property v (codes "summary")) in
        if not (is_record v) || (not (is_record embedding) || not (is_record summary))
        then invalid []
        else do
          e ← parse_embedding embedding
          s ← parse_summary summary
          reindex_required ← expect_boolean v (codes "reindex_required")
          value (record { embedding = e; summary = s; reindex_required = reindex_required })
