-- ===== src/Client/Tests.antt =====
-- The client at a runtime whose `encodeURIComponent` is stood in for by a shift of all code units
-- beyond the slash.
use mcp_project_server.Prelude.{
  ℕ, ◌≡◌, ◌≢◌, refl, [], ◌∷◌, ◌-◌, ◌+◌, Bool, All, true, false, none, map, arith,
}
use mcp_project_server.Js.Str.{Str, codes, str_eq}
use mcp_project_server.Js.Json.{Json, Fields, empty, field, property, own}
use mcp_project_server.Api.Settings.{AiSettings, AiSettingSource}
use mcp_project_server.Client.Request.{Response, received}
use mcp_project_server.Client.Endpoints.{Runtime}
use mcp_project_server.Client.Paths.{IsEncoding, project_path-injective}
use mcp_project_server.Client.Settings.{parse_ai_settings}
use mcp_project_server.Client.Settings.Parsed.{HasSettings, Yields}
use mcp_project_server.Client.Settings.Accepted.{parse_ai_settings_sound}
use mcp_project_server.Client.Calls.{IsReceived, received-IsReceived}

abbrev shift : Str → Str
shift s = map (λ c. c + 48) s

abbrev unshift : Str → Str
unshift s = map (λ c. c - 48) s

unshift-shift : (s : Str) → unshift (shift s) ≡ s
unshift-shift [] = refl
unshift-shift (c ∷ s) = ground (arith, unshift-shift s)

shift_no_slash : (s : Str) → All (λ c. c ≢ b'/') (shift s)
shift_no_slash [] = tt
shift_no_slash (c ∷ s) = (λ e. ground arith, shift_no_slash s)

abbrev runtime : Runtime
runtime = record {
  encode = shift;
  query = λ params. [];
  show = λ n. [];
  stringify = λ payload. codes "{}";
}

shift-IsEncoding : IsEncoding runtime.encode
shift-IsEncoding = record { decode = unshift; inverse = unshift-shift; no_slash = shift_no_slash }

project_path-injective_example : (codes "a/b" ≡ codes "a/b") × (codes "focus" ≡ codes "focus")
project_path-injective_example =
    project_path-injective runtime shift-IsEncoding (codes "a/b") (codes "a/b") (codes "focus")
      (codes "focus") refl

abbrev not_found : Response ℕ
not_found = record { ok = false; status = 404; status_text = codes "Not Found"; json = none }

received-IsReceived_example : IsReceived (λ n. []) not_found (received (λ n. []) not_found)
received-IsReceived_example = received-IsReceived (λ n. []) not_found

abbrev text : Str → Str → Fields ℕ → Fields ℕ
text key s rest = field key (Json.string s) rest

abbrev number : Str → ℕ → Fields ℕ → Fields ℕ
number key n rest = field key (Json.number n) rest

abbrev summary_fields : Fields ℕ
summary_fields = text (codes "backend") (codes "ollama") (
    text (codes "base_url") (codes "u") (
      text (codes "model") (codes "m") (
        number (codes "timeout_seconds") 30 (
          field (codes "api_key_configured") (Json.boolean true)
            (text (codes "source") (codes "default") empty)))))

abbrev embedding_fields : Fields ℕ
embedding_fields = number (codes "dimensions") 768 (number (codes "batch_size") 16 summary_fields)

abbrev response : Json ℕ
response = Json.object (
    field (codes "embedding") (Json.object embedding_fields) (
      field (codes "summary") (Json.object summary_fields)
        (field (codes "reindex_required") (Json.boolean false) empty)))

abbrev settings : AiSettings ℕ
settings = record {
  embedding = record {
    backend = codes "ollama";
    base_url = codes "u";
    model = codes "m";
    dimensions = 768;
    batch_size = 16;
    timeout_seconds = 30;
    api_key_configured = true;
    source = AiSettingSource.default;
  };
  summary = record {
    backend = codes "ollama";
    base_url = codes "u";
    model = codes "m";
    timeout_seconds = 30;
    api_key_configured = true;
    source = AiSettingSource.default;
  };
  reindex_required = false;
}

abbrev finite : ℕ → Bool
finite n = true

response-HasSettings : HasSettings finite response settings
unfolding property own str_eq
response-HasSettings = record {
  embedding = (
    Json.object embedding_fields,
    refl,
    record {
      backend = refl;
      base_url = refl;
      model = refl;
      dimensions = (refl, refl);
      batch_size = (refl, refl);
      timeout_seconds = (refl, refl);
      api_key_configured = refl;
      source = refl;
    },
  );
  summary = (
    Json.object summary_fields,
    refl,
    record {
      backend = refl;
      base_url = refl;
      model = refl;
      timeout_seconds = (refl, refl);
      api_key_configured = refl;
      source = refl;
    },
  );
  reindex_required = refl;
}

parse_ai_settings_sound_example :
    Yields (HasSettings finite response) (parse_ai_settings finite response)
parse_ai_settings_sound_example = parse_ai_settings_sound finite response
