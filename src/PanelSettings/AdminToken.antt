-- ===== src/PanelSettings/AdminToken.antt =====
-- The admin token, from the card that saves it to the requests that carry it.
use mcp_project_server.Prelude.{
  ◌≡◌, ◌≢◌, refl, ap, ◌∙◌, Option, none, some, [], Bool-cases, inl, inr, if-cases, if◌then◌else◌,
}
use mcp_project_server.Js.Str.{Str, codes, str_eq, str_eq_iff}
use mcp_project_server.Js.Map.{Map, get, get-put, get-delete}
use mcp_project_server.Claims.{Storage}
use mcp_project_server.Fetch.Media.{Runtime}
use mcp_project_server.Fetch.Bodies.{value}
use mcp_project_server.Fetch.Requests.{
  Config, path, Options, Prepared, given, prepare, set_admin_token_getter,
}
use mcp_project_server.Fetch.Tokens.{prepare-admin_token}
use mcp_project_server.PanelSettings.{admin_token_storage_key, read_admin_token, save_admin_token}

-- What the storage gives back of a token that was saved.
unfoldable pub kept : Str → Option Str
unfolding str_eq
kept token = if str_eq token [] then none else some token

read_admin_token-save :
    (items : Map Str) (token : Str)
    → read_admin_token (save_admin_token (some items) token) ≡ kept token
unfolding read_admin_token save_admin_token kept
read_admin_token-save items token =
    if-cases (λ t. read_admin_token t ≡ kept token) (str_eq token [])
      (λ empty. rw (get-delete items admin_token_storage_key admin_token_storage_key, empty) refl)
      (λ named.
        rw (get-put items admin_token_storage_key admin_token_storage_key token, named) refl)

kept_given : (token : Str) → token ≢ [] → kept token ≡ some token
unfolding kept
kept_given token named = elim (Bool-cases (str_eq token [])) [
  | inl empty ↦ absurd (named ((str_eq_iff token []).0 empty))
  | inr other ↦ rw other refl
]

-- The client's configuration, whose admin token getter reads the storage.
abbrev pub with_storage : Storage → Config → Config
with_storage storage config =
    set_admin_token_getter (some (given (read_admin_token storage))) config

-- Where the browser's storage works, an admin token that was saved and is not empty is carried by
-- every request to a path that is handed to `fetch`, if the client has no bearer token and the
-- caller does not set that header.
pub saved_admin_token-prepare :
    {N B : Type 0} (rt : Runtime N) (config : Config) (items : Map Str) (token u : Str)
    (options : Options) (p : Prepared)
    → token ≢ []
    → config.auth_token_getter ≡ none
    → get options.headers (codes "x-pcs-admin-token") ≡ none
    → prepare {B = B} rt
        (with_storage (save_admin_token (some items) token) config)
        (path u)
        options
      ≡ value p
    → get p.headers (codes "x-pcs-admin-token") ≡ some token
unfolding set_admin_token_getter
saved_admin_token-prepare {B = B} rt config items token u options p some_token no_auth missing e =
    prepare-admin_token rt (with_storage (save_admin_token (some items) token) config) u options p
      token no_auth
      (ap (λ t. some (given t)) (read_admin_token-save items token ∙ kept_given token some_token))
      some_token missing e
