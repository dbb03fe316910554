-- ===== src/Fetch/Prepared.antt =====
-- What `customFetch` hands to `fetch`.
use mcp_project_server.Prelude.{
  ◌≡◌, refl, ◌∙◌, ◌⊎◌, inl, inr, true, false, ◌&&◌, Option, none, some, Bool-cases, if-cases,
  if-both, [], ◌∷◌, ◌++◌, arith, ◌==◌,
}
use mcp_project_server.Js.Str.{Str, codes, str_eq, starts_with, trim_end}
use mcp_project_server.Js.Map.{Map, get, HasDistinctKeys}
use mcp_project_server.Fetch.Headers.{
  OnValue, OnValue-bind, OnValue-value, OnValue-made, OnValue-Unit, OnValue-type_error,
  get-merge_headers, get-set_default, get-attach_token, auth, admin, bearer,
}
use mcp_project_server.Fetch.Media.{Runtime}
use mcp_project_server.Fetch.Bodies.{Outcome, value, ◌>>=◌}
use mcp_project_server.Fetch.Requests.{
  Config, Input, path, Options, Payload, absent, text_body, other_body, Prepared, prepare,
  default_headers, attach_token, has_body, takes_no_body, set_base_url, apply_base_url,
  resolve_method, under, prefix_of, resolve_url,
}

get-default_headers :
    (input : Input) (options : Options) (k v : Str)
    → HasDistinctKeys options.headers
    → get options.headers k ≡ some v
    → get (default_headers input options) k ≡ some v
unfolding default_headers
get-default_headers input options k v distinct h = get-set_default _ (codes "accept") _ _ k v (
    get-set_default _ (codes "content-type") _ _ k v
      (get-merge_headers input options.headers k v distinct h))

module _ {N : Type 0} (B : Type 0) (rt : Runtime N) (config : Config) (given_input : Input)
    (options : Options) where
  abbrev pub based : Input
  based = apply_base_url rt.normalize_url config.base_url given_input

  pub record IsPrepared (P : Map Str → Type 0) (p : Prepared) : Type 0 where
    pub headers : P p.headers
    pub input : p.input ≡ based
    pub body : p.body ≡ options.body
    pub bodiless : (takes_no_body p.method ≡ false) ⊎ (p.body ≡ absent)

  no_payload : (body : Payload) → has_body body ≡ false → body ≡ absent
  no_payload absent e = refl
  no_payload (text_body _) e = absurd (cc)
  no_payload other_body e = absurd (cc)

  takes_payload :
      (method : Str) (body : Payload)
      → has_body body && takes_no_body method ≡ false
      → (takes_no_body method ≡ false) ⊎ (body ≡ absent)
  takes_payload method body e = elim (Bool-cases (has_body body)) [
    | inl there ↦ inl (ground arith)
    | inr missing ↦ inr (no_payload body missing)
  ]

  abbrev method_of : Str
  method_of = resolve_method rt.to_upper based options.method

  abbrev made : Map Str → Prepared
  made headers = record {
    input = based;
    method = method_of;
    headers = headers;
    body = options.body;
  }

  made-IsPrepared :
      (Q : Map Str → Type 0) (h : Map Str)
      → has_body options.body && takes_no_body method_of ≡ false
      → Q h
      → IsPrepared Q (made h)
  made-IsPrepared Q h allowed q = record {
    headers = q;
    input = refl;
    body = refl;
    bodiless = takes_payload method_of options.body allowed;
  }

  abbrev pub with_auth : Outcome N B (Map Str)
  with_auth = attach_token auth bearer config.auth_token_getter (default_headers based options)

  abbrev pub with_admin : Map Str → Outcome N B (Map Str)
  with_admin h = attach_token admin [] config.admin_token_getter h

  pub prepare-OnValue :
      (P Q : Map Str → Type 0)
      → OnValue P with_auth
      → ((h : Map Str) → P h → OnValue Q (with_admin h))
      → OnValue (IsPrepared Q) (prepare {B = B} rt config given_input options)
  unfolding prepare
  prepare-OnValue P Q first second =
      if-cases (OnValue {N = N} {B = B} (IsPrepared Q))
        (has_body options.body && takes_no_body method_of)
        (λ refused. OnValue-type_error N B (IsPrepared Q) _)
        (λ allowed.
          OnValue-bind P (IsPrepared Q) with_auth (λ h. with_admin h >>= λ m. value (made m)) first
            (λ h p.
              OnValue-bind Q (IsPrepared Q) (with_admin h) (λ m. value (made m)) (second h p)
                (λ m q. OnValue-made N B (IsPrepared Q) (made m) (made-IsPrepared Q m allowed q))))

-- A request that is handed to `fetch` has no body if its method is `GET` or `HEAD`; its body is
-- always that of the options, and its input is the given one under the base URL.
pub prepare-bodiless :
    {N B : Type 0} (rt : Runtime N) (config : Config) (input : Input) (options : Options)
    (p : Prepared)
    → prepare {B = B} rt config input options ≡ value p
    → ((takes_no_body p.method ≡ false) ⊎ (p.body ≡ absent))
      × (p.body ≡ options.body)
      × (p.input ≡ apply_base_url rt.normalize_url config.base_url input)
prepare-bodiless {B = B} rt config input options p e =
    let r = OnValue-value _ _ p e (
      prepare-OnValue B rt config input options (λ h. Unit) (λ h. Unit) (OnValue-Unit _)
        (λ h t. OnValue-Unit _)) in
    (r.bodiless, r.body, r.input)

-- Every header that the caller sets has the caller's value in the request that is handed to
-- `fetch`: no default, no token and no header of a given `Request` replaces it.
pub prepare-get_headers :
    {N B : Type 0} (rt : Runtime N) (config : Config) (input : Input) (options : Options)
    (p : Prepared) (name v : Str)
    → HasDistinctKeys options.headers
    → get options.headers name ≡ some v
    → prepare {B = B} rt config input options ≡ value p
    → get p.headers name ≡ some v
prepare-get_headers {N = N} {B = B} rt config input options p name v distinct h e =
    let P : Map Str → Type 0 = λ m. get m name ≡ some v in
    let r = OnValue-value _ _ p e (
      prepare-OnValue B rt config input options P P
        (get-attach_token N B auth bearer config.auth_token_getter _ name v (
          get-default_headers (apply_base_url rt.normalize_url config.base_url input) options name v
            distinct h))
        (λ m q. get-attach_token N B admin [] config.admin_token_getter m name v q)) in
    r.headers

under_path :
    (normalize : Str → Str) (base : Option Str) (u : Str)
    → (w : Str) × (under normalize base (path u) ≡ path w)
unfolding resolve_url
under_path normalize none u = (u, refl)
under_path normalize (some b) u =
    if-both (λ i. (w : Str) × (i ≡ path w)) (starts_with u (codes "/")) (b ++ u, refl) (u, refl)

pub apply_base_url_path :
    (normalize : Str → Str) (base : Option Str) (u : Str)
    → (w : Str) × (apply_base_url normalize base (path u) ≡ path w)
unfolding apply_base_url
apply_base_url_path normalize base u = under_path normalize (prefix_of base) u

under-some :
    (normalize : Str → Str) (b u : Str)
    → starts_with u (codes "/") ≡ true
    → under normalize (prefix_of (some b)) (path u) ≡ path (b ++ u)
unfolding resolve_url str_eq
under-some normalize [] u relative = refl
under-some normalize (c ∷ b) u relative = ground (arith)

set-apply :
    (normalize : Str → Str) (config : Config) (base : Option Str) (u : Str)
    → starts_with u (codes "/") ≡ true
    → apply_base_url normalize (set_base_url base config).base_url (path u)
      ≡ path (elim base [ none ↦ u | some b ↦ trim_end (λ c. c == b'/') b ++ u ])
unfolding apply_base_url set_base_url str_eq trim_end
set-apply normalize config none u relative = refl
set-apply normalize config (some []) u relative = refl
set-apply normalize config (some (c ∷ b)) u relative =
    under-some normalize (trim_end (λ c. c == b'/') (c ∷ b)) u relative

-- After `setBaseUrl`, a request to a path that begins with a slash goes to the base URL without its
-- slashes at the end, followed by the path; without a base URL the path stays as it is.
pub prepare-base_url :
    {N B : Type 0} (rt : Runtime N) (config : Config) (base : Option Str) (u : Str)
    (options : Options) (p : Prepared)
    → starts_with u (codes "/") ≡ true
    → prepare {B = B} rt (set_base_url base config) (path u) options ≡ value p
    → p.input ≡ path (elim base [ none ↦ u | some b ↦ trim_end (λ c. c == b'/') b ++ u ])
prepare-base_url {B = B} rt config base u options p relative e =
    let r = OnValue-value _ _ p e (
      prepare-OnValue B rt (set_base_url base config) (path u) options (λ h. Unit) (λ h. Unit)
        (OnValue-Unit _) (λ h t. OnValue-Unit _)) in
    r.input ∙ set-apply rt.normalize_url config base u relative
