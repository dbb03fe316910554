-- ===== src/SettingsForm/Tests.antt =====
-- A form whose submission fails with a message that repeats the key.
use mcp_project_server.Prelude.{ℕ, ◌≡◌, refl, none, some, List, [], ◌∷◌}
use mcp_project_server.Js.Str.{codes, str_eq, includes, starts_with}
use mcp_project_server.SettingsForm.{
  new_form, Event, type_api_key, clear_key, submit, failed, fallback, payload_key, safe_error,
}
use mcp_project_server.SettingsForm.Secrets.{run, IsSound, run-new_form-IsSound}

abbrev events : List (Event ℕ)
events = type_api_key (codes "sk") ∷ submit ∷ failed (some (codes "bad key sk")) ∷ []

hidden_key : (run events (new_form 0)).save_state.error ≡ some fallback
unfolding run safe_error includes str_eq starts_with
hidden_key = refl

cleared_key :
    payload_key {I = ℕ} (run (type_api_key (codes "sk") ∷ clear_key ∷ []) (new_form 0)) ≡ some none
unfolding payload_key run
cleared_key = refl

run-new_form-IsSound_example : IsSound (run events (new_form 0))
run-new_form-IsSound_example = run-new_form-IsSound 0 events
