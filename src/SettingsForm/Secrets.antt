-- ===== src/SettingsForm/Secrets.antt =====
-- How the forms treat what the user types as secrets.
use mcp_project_server.Prelude.{
  ◌≡◌, refl, ◌⊎◌, inl, inr, false, not, ◌&&◌, Option, none, some, List, [], ◌∷◌, All, any,
  Bool-cases, if-cases, if-both, arith,
}
use mcp_project_server.Js.Str.{Str, str_eq, str_eq_iff, includes}
use mcp_project_server.SettingsForm.{
  Form, new_form, Event, edit, type_api_key, type_admin_token, clear_key, submit, saved, failed,
  handle, safe_error, fallback, Thrown,
}

-- A message that does not tell a secret.
abbrev pub Hides : Str → Str → Type 0
Hides message secret = (secret ≡ []) ⊎ (includes message secret ≡ false)

none_told :
    (message : Str) (secrets : List Str)
    → any (λ secret. not (str_eq secret []) && includes message secret) secrets ≡ false
    → All (Hides message) secrets
none_told message [] h = tt
none_told message (s ∷ secrets) h = (
  elim (Bool-cases (str_eq s [])) [
    | inl empty ↦ inl ((str_eq_iff s []).0 empty)
    | inr typed ↦ inr (ground arith)
  ],
  none_told message secrets (ground arith),
)

-- The error that is shown is the fixed text, or it contains none of the secrets.
safe_error-Hides :
    (thrown : Thrown) (secrets : List Str)
    → (safe_error thrown secrets ≡ fallback) ⊎ All (Hides (safe_error thrown secrets)) secrets
unfolding safe_error
safe_error-Hides none secrets = inl refl
safe_error-Hides (some message) secrets =
    let Safe : Str → Type 0 = λ m. (m ≡ fallback) ⊎ All (Hides m) secrets in
    if-both Safe (str_eq message []) (inl refl) (
      if-cases Safe (any (λ secret. not (str_eq secret []) && includes message secret) secrets)
        (λ told. inl refl) (λ hidden. inr (none_told message secrets hidden)))

-- What is shown tells none of the secrets, save by the fixed text.
abbrev pub IsHidden : List Str → Option Str → Type 0
IsHidden secrets none = Unit
IsHidden secrets (some message) = (message ≡ fallback) ⊎ All (Hides message) secrets

module _ {I : Type 0} where
  unfoldable pub run : List (Event I) → Form I → Form I
  unfolding handle
  run [] form = form
  run (e ∷ events) form = run events (handle form e)

  -- A form that is to clear the saved key holds no typed key, and the error that it shows tells no
  -- secret of its last submission.
  pub record IsSound (form : Form I) : Type 0 where
    pub exclusive : (form.clear_secret ≡ false) ⊎ (form.api_key ≡ [])
    pub hidden : IsHidden form.submitted form.save_state.error

  handle-IsSound : (form : Form I) (e : Event I) → IsSound form → IsSound (handle form e)
  unfolding handle
  handle-IsSound form (edit values) h = record { exclusive = h.exclusive; hidden = h.hidden }
  handle-IsSound form (type_api_key v) h = record { exclusive = inl refl; hidden = h.hidden }
  handle-IsSound form (type_admin_token v) h = record { exclusive = h.exclusive; hidden = h.hidden }
  handle-IsSound form clear_key h = record { exclusive = inr refl; hidden = h.hidden }
  handle-IsSound form submit h = record { exclusive = inr refl; hidden = tt }
  handle-IsSound form saved h = record { exclusive = inl refl; hidden = tt }
  handle-IsSound form (failed error) h = record {
    exclusive = h.exclusive;
    hidden = safe_error-Hides error form.submitted;
  }

  run-IsSound : (events : List (Event I)) (form : Form I) → IsSound form → IsSound (run events form)
  unfolding run
  run-IsSound [] form h = h
  run-IsSound (e ∷ events) form h = run-IsSound events (handle form e) (handle-IsSound form e h)

-- Whatever the user and the server do to a new form, it never holds both a typed key and the wish
-- to clear the saved one, so that no typed key is lost to a null; and the error that it shows is
-- the fixed text, or contains neither the key nor the token of the last submission.
pub run-new_form-IsSound :
    {I : Type 0} (values : I) (events : List (Event I)) → IsSound (run events (new_form values))
run-new_form-IsSound values events =
    run-IsSound events (new_form values) (record { exclusive = inl refl; hidden = tt })
