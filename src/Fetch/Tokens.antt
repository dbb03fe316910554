-- ===== src/Fetch/Tokens.antt =====
-- The tokens of a request that `customFetch` hands to `fetch`.
use mcp_project_server.Prelude.{◌≡◌, ◌≢◌, refl, sym, subst, false, none, some, [], ◌++◌}
use mcp_project_server.Js.Str.{Str, codes, str_eq}
use mcp_project_server.Js.Map.{Map, get}
use mcp_project_server.Fetch.Headers.{
  OnValue, OnValue-value, OnValue-both, attached_other, get-merge_headers_missing,
  get-set_default_missing, get-attach_token, attached, auth, admin, bearer,
}
use mcp_project_server.Fetch.Media.{Runtime}
use mcp_project_server.Fetch.Bodies.{value}
use mcp_project_server.Fetch.Requests.{
  Config, path, Options, Prepared, given, prepare, default_headers, attach_token,
}
use mcp_project_server.Fetch.Prepared.{
  apply_base_url_path, based, with_auth, with_admin, prepare-OnValue,
}

missing_header :
    (u : Str) (options : Options) (k : Str)
    → str_eq (codes "accept") k ≡ false
    → str_eq (codes "content-type") k ≡ false
    → get options.headers k ≡ none
    → get (default_headers (path u) options) k ≡ none
unfolding default_headers
missing_header u options k a b h = get-set_default_missing _ (codes "accept") _ _ k a (
    get-set_default_missing _ (codes "content-type") _ _ k b
      (get-merge_headers_missing options.headers k h))

module _ {N : Type 0} (B : Type 0) (rt : Runtime N) (config : Config) (u : Str)
    (options : Options) where
  missing_at_base :
      (k : Str)
      → ((w : Str) → get (default_headers (path w) options) k ≡ none)
      → get (default_headers (based B rt config (path u) options) options) k ≡ none
  missing_at_base k h =
      let (w, at_path) = apply_base_url_path rt.normalize_url config.base_url u in
      subst (λ i. get (default_headers i options) k ≡ none) (sym at_path) (h w)

  first_token :
      (token : Str)
      → config.auth_token_getter ≡ some (given (some token))
      → token ≢ []
      → get options.headers auth ≡ none
      → get options.headers admin ≡ none
      → OnValue
          (λ m. (get m auth ≡ some (bearer ++ token)) × (get m admin ≡ none))
          (with_auth B rt config (path u) options)
  unfolding str_eq
  first_token token has_auth some_token no_auth no_admin =
      let headers = default_headers (based B rt config (path u) options) options in
      let none_auth = missing_at_base auth (λ w. missing_header w options auth refl refl no_auth) in
      let none_admin =
        missing_at_base admin (λ w. missing_header w options admin refl refl no_admin) in
      subst
        (λ getter.
          OnValue {N = N} {B = B}
            (λ m. (get m auth ≡ some (bearer ++ token)) × (get m admin ≡ none))
            (attach_token auth bearer getter headers))
        (sym has_auth)
        (OnValue-both _ _ _ (attached N B auth bearer token headers some_token none_auth)
          (attached_other N B auth bearer token headers admin refl none_admin))

  second_token :
      (bearer_token token : Str)
      → config.admin_token_getter ≡ some (given (some token))
      → token ≢ []
      → (m : Map Str) → (get m auth ≡ some (bearer ++ bearer_token)) × (get m admin ≡ none)
      → OnValue
          (λ m. (get m auth ≡ some (bearer ++ bearer_token)) × (get m admin ≡ some token))
          (with_admin B rt config (path u) options m)
  second_token bearer_token token has_admin some_token m (h, missing) =
      subst
        (λ getter.
          OnValue {N = N} {B = B}
            (λ m. (get m auth ≡ some (bearer ++ bearer_token)) × (get m admin ≡ some token))
            (attach_token admin [] getter m))
        (sym has_admin)
        (OnValue-both _ _ _ (get-attach_token N B admin [] _ m auth (bearer ++ bearer_token) h)
          (attached N B admin [] token m some_token missing))

-- Where both tokens are there and the caller sets neither header, the request to a path carries
-- the bearer token and the admin token.
pub prepare-tokens :
    {N B : Type 0} (rt : Runtime N) (config : Config) (u : Str) (options : Options) (p : Prepared)
    (bearer_token admin_token : Str)
    → config.auth_token_getter ≡ some (given (some bearer_token))
    → config.admin_token_getter ≡ some (given (some admin_token))
    → bearer_token ≢ []
    → admin_token ≢ []
    → get options.headers auth ≡ none
    → get options.headers admin ≡ none
    → prepare {B = B} rt config (path u) options ≡ value p
    → (get p.headers auth ≡ some (bearer ++ bearer_token))
      × (get p.headers admin ≡ some admin_token)
prepare-tokens {B = B} rt config u options p bearer_token admin_token has_auth has_admin bt at
      no_auth no_admin e =
    let P : Map Str → Type 0 =
      λ m. (get m auth ≡ some (bearer ++ bearer_token)) × (get m admin ≡ none) in
    let Q : Map Str → Type 0 =
      λ m. (get m auth ≡ some (bearer ++ bearer_token)) × (get m admin ≡ some admin_token) in
    let r = OnValue-value _ _ p e (
      prepare-OnValue B rt config (path u) options P Q
        (first_token B rt config u options bearer_token has_auth bt no_auth no_admin)
        (second_token B rt config u options bearer_token admin_token has_admin at)) in
    r.headers

-- Where there is no bearer token and the caller sets no header for the admin token, the request to
-- a path carries the admin token that is given.
pub prepare-admin_token :
    {N B : Type 0} (rt : Runtime N) (config : Config) (u : Str) (options : Options) (p : Prepared)
    (admin_token : Str)
    → config.auth_token_getter ≡ none
    → config.admin_token_getter ≡ some (given (some admin_token))
    → admin_token ≢ []
    → get options.headers admin ≡ none
    → prepare {B = B} rt config (path u) options ≡ value p
    → get p.headers admin ≡ some admin_token
unfolding attach_token OnValue str_eq
prepare-admin_token {N = N} {B = B} rt config u options p admin_token no_auth has_admin some_token
      missing e =
    let headers = default_headers (based B rt config (path u) options) options in
    let none_admin =
      missing_at_base B rt config u options admin
        (λ w. missing_header w options admin refl refl missing) in
    let P : Map Str → Type 0 = λ m. get m admin ≡ none in
    let Q : Map Str → Type 0 = λ m. get m admin ≡ some admin_token in
    let r = OnValue-value _ _ p e (
      prepare-OnValue B rt config (path u) options P Q
        (subst (λ getter. OnValue {N = N} {B = B} P (attach_token auth bearer getter headers))
          (sym no_auth) none_admin)
        (λ m none_yet.
          subst (λ getter. OnValue {N = N} {B = B} Q (attach_token admin [] getter m))
            (sym has_admin) (attached N B admin [] admin_token m some_token none_yet))) in
    r.headers
