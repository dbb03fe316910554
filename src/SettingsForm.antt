-- ===== src/SettingsForm.antt =====
-- web/src/views/AiSettingsView.tsx: the two forms of the AI settings, which differ in their values
-- alone. `I` stands for the values of a form and its payload.
pub mod Secrets
mod Tests
use mcp_project_server.Prelude.{
  Bool, true, false, not, ◌&&◌, ◌||◌, Option, none, some, List, [], ◌∷◌, any, if◌then◌else◌,
}
use mcp_project_server.Js.Str.{Str, codes, str_eq, includes}
use mcp_project_server.Api.Settings.{
  AiSettings, AiSettingsInput, AiSettingSource, EmbeddingSettings, EmbeddingSettingsInput,
  SummarySettings, SummarySettingsInput,
}

pub record SaveState : Type 0 where
  pub error : Option Str
  pub saved : Bool

abbrev pub empty_save_state : SaveState
empty_save_state = record { error = none; saved = false }

-- The values of a form; an absent key is `none`.
unfoldable pub embedding_input : {N : Type 0} → EmbeddingSettings N → EmbeddingSettingsInput N
embedding_input settings = record {
  backend = settings.backend;
  base_url = settings.base_url;
  model = settings.model;
  dimensions = settings.dimensions;
  batch_size = settings.batch_size;
  timeout_seconds = settings.timeout_seconds;
  api_key = none;
}

unfoldable pub summary_input : {N : Type 0} → SummarySettings N → SummarySettingsInput N
summary_input settings = record {
  backend = settings.backend;
  base_url = settings.base_url;
  model = settings.model;
  timeout_seconds = settings.timeout_seconds;
  api_key = none;
}

unfoldable pub source_label : AiSettingSource → Str
source_label AiSettingSource.persisted = codes "Saved override"
source_label AiSettingSource.environment = codes "Environment"
source_label AiSettingSource.default = codes "Default"

abbrev pub fallback : Str
fallback = codes "Settings could not be saved. Check the values and try again."

-- What is thrown: an `Error` with its message, or something else.
abbrev pub Thrown : Type 0
Thrown = Option Str

unfoldable pub safe_error : Thrown → List Str → Str
unfolding includes str_eq
safe_error none secrets = fallback
safe_error (some message) secrets =
    if str_eq message []
    then fallback
    else if any (λ secret. not (str_eq secret []) && includes message secret) secrets
    then fallback
    else message

-- The state of a form. `submitted` are the secrets that the last `submit` holds on to until its
-- answer.
pub record Form (I : Type 0) : Type 0 where
  pub values : I
  pub api_key : Str
  pub admin_token : Str
  pub clear_secret : Bool
  pub pending : Bool
  pub save_state : SaveState
  pub submitted : List Str

abbrev pub new_form : {I : Type 0} → I → Form I
new_form values = record {
  values = values;
  api_key = [];
  admin_token = [];
  clear_secret = false;
  pending = false;
  save_state = empty_save_state;
  submitted = [];
}

-- What the user and the server do to a form.
pub data Event (I : Type 0) : Type 0 where
  edit : I → Event I
  type_api_key type_admin_token : Str → Event I
  clear_key submit saved : Event I
  failed : Thrown → Event I

unfoldable pub handle : {I : Type 0} → Form I → Event I → Form I
unfolding safe_error
handle form (edit values) = record form { values = values }
handle form (type_api_key v) = record form { api_key = v; clear_secret = false }
handle form (type_admin_token v) = record form { admin_token = v }
handle form clear_key = record form { api_key = []; clear_secret = true }
handle form submit = record form {
  api_key = [];
  admin_token = [];
  save_state = empty_save_state;
  pending = true;
  submitted = form.api_key ∷ form.admin_token ∷ [];
}
handle form saved = record form {
  clear_secret = false;
  save_state = record { error = none; saved = true };
  pending = false;
}
handle form (failed error) = record form {
  save_state = record { error = some (safe_error error form.submitted); saved = false };
  pending = false;
}

-- The key of the payload: null where the saved key is cleared, absent where none is typed.
unfoldable pub payload_key : {I : Type 0} → Form I → Option (Option Str)
unfolding str_eq
payload_key form =
    if form.clear_secret
    then some none
    else if str_eq form.api_key []
    then none
    else some (some form.api_key)

-- The payload of each form.
unfoldable pub embedding_payload :
    {N : Type 0} → Form (EmbeddingSettingsInput N) → AiSettingsInput N
unfolding payload_key
embedding_payload form = record {
  embedding = some (record form.values { api_key = payload_key form });
  summary = none;
}

unfoldable pub summary_payload : {N : Type 0} → Form (SummarySettingsInput N) → AiSettingsInput N
unfolding payload_key
summary_payload form = record {
  embedding = none;
  summary = some (record form.values { api_key = payload_key form });
}
