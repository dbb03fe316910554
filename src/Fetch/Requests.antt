-- ===== src/Fetch/Requests.antt =====
-- How custom-fetch.ts prepares a request: its URL, its method and its headers.
use mcp_project_server.Prelude.{
  Bool, true, false, not, ◌&&◌, ◌||◌, Option, none, some, List, [], ◌∷◌, ◌++◌, foldl, ◌==◌,
  if◌then◌else◌,
}
use mcp_project_server.Js.Str.{Str, codes, str_eq, starts_with, trim_end}
use mcp_project_server.Js.Map.{Map, get, put}
use mcp_project_server.Fetch.Media.{Runtime, looks_like_json}
use mcp_project_server.Fetch.Bodies.{
  Outcome, value, type_error, runtime_error, ResponseType, json_type, ◌>>=◌,
}

-- `RequestInfo | URL`: a text, a `URL` by its text, or a `Request`.
pub data Input : Type 0 where
  path : Str → Input
  url : Str → Input
  request : (url method : Str) → (headers : Map Str) → Input

-- What a token getter gives: its promise fails, or it is a token or null.
pub data Token : Type 0 where
  unavailable : Token
  given : Option Str → Token

-- The module's configuration; `none` is null.
pub record Config : Type 0 where
  pub base_url : Option Str
  pub auth_token_getter : Option Token
  pub admin_token_getter : Option Token

unfoldable pub set_base_url : Option Str → Config → Config
set_base_url new_url config = record config {
  base_url = elim new_url [
    | none ↦ none
    | some u ↦ if str_eq u [] then none else some (trim_end (λ c. c == b'/') u)
  ];
}

unfoldable pub set_auth_token_getter : Option Token → Config → Config
set_auth_token_getter getter config = record config { auth_token_getter = getter }

unfoldable pub set_admin_token_getter : Option Token → Config → Config
set_admin_token_getter getter config = record config { admin_token_getter = getter }

-- The options of `customFetch`: the body is a text or something else that is not null.
pub data Payload : Type 0 where
  absent : Payload
  text_body : Str → Payload
  other_body : Payload

pub record Options : Type 0 where
  pub method : Option Str
  pub headers : Map Str
  pub body : Payload
  pub response_type : ResponseType

-- What is handed to `fetch`.
pub record Prepared : Type 0 where
  pub input : Input
  pub method : Str
  pub headers : Map Str
  pub body : Payload

unfoldable pub resolve_url : Input → Str
resolve_url (path u) = u
resolve_url (url u) = u
resolve_url (request u _ _) = u

-- The configured URL, unless it is null or empty.
abbrev pub prefix_of : Option Str → Option Str
prefix_of none = none
prefix_of (some u) = if str_eq u [] then none else some u

abbrev with_url : (Str → Str) → Str → Input → Input
with_url normalize absolute (path _) = path absolute
with_url normalize absolute (url _) = url (normalize absolute)
with_url normalize absolute (request _ method headers) = request (normalize absolute) method headers

abbrev pub under : (Str → Str) → Option Str → Input → Input
under normalize none input = input
under normalize (some base) input =
    if starts_with (resolve_url input) (codes "/")
    then with_url normalize (base ++ resolve_url input) input
    else input

unfoldable pub apply_base_url : (Str → Str) → Option Str → Input → Input
unfolding resolve_url
apply_base_url normalize base_url input = under normalize (prefix_of base_url) input

abbrev input_method : Input → Option Str
input_method (request _ method _) = some method
input_method _ = none

abbrev upper_or : (Str → Str) → Option Str → Str → Str
upper_or to_upper none other = other
upper_or to_upper (some s) other = to_upper s

unfoldable pub resolve_method : (Str → Str) → Input → Option Str → Str
resolve_method to_upper input explicit =
    upper_or to_upper (prefix_of explicit) (upper_or to_upper (input_method input) (codes "GET"))

-- `mergeHeaders`: a later source's value replaces an earlier one's.
unfoldable pub merge_headers : List (Map Str) → Map Str
unfolding put
merge_headers sources =
    foldl (λ headers source. foldl (λ h e. put h e.0 e.1) headers source) [] sources

abbrev pub input_headers : Input → List (Map Str)
input_headers (request _ _ headers) = headers ∷ []
input_headers _ = []

abbrev pub has_header : Map Str → Str → Bool
has_header headers name = elim (get headers name) [ none ↦ false | some _ ↦ true ]

-- `if (!headers.has(name)) headers.set(name, value)`, under a condition.
unfoldable pub set_default : Bool → Str → Str → Map Str → Map Str
set_default wanted name v headers =
    if wanted && not (has_header headers name) then put headers name v else headers

abbrev is_json_text : Payload → Bool
is_json_text (text_body s) = looks_like_json s
is_json_text _ = false

abbrev is_json_type : ResponseType → Bool
is_json_type json_type = true
is_json_type _ = false

-- `if (token) headers.set(name, …)`
abbrev pub set_token : Str → Str → Option Str → Map Str → Map Str
set_token name scheme none headers = headers
set_token name scheme (some token) headers =
    if str_eq token [] then headers else put headers name (scheme ++ token)

-- The getter is only called where the header is not there.
abbrev pub call_getter :
    {N B : Type 0} → Str → Str → Option Token → Map Str → Bool → Outcome N B (Map Str)
call_getter name scheme none headers there = value headers
call_getter name scheme (some _) headers true = value headers
call_getter name scheme (some unavailable) headers false = runtime_error
call_getter name scheme (some (given token)) headers false =
    value (set_token name scheme token headers)

unfoldable pub attach_token :
    {N B : Type 0} → Str → Str → Option Token → Map Str → Outcome N B (Map Str)
attach_token name scheme getter headers =
    call_getter name scheme getter headers (has_header headers name)

abbrev pub has_body : Payload → Bool
has_body absent = false
has_body _ = true

abbrev pub takes_no_body : Str → Bool
takes_no_body method = str_eq method (codes "GET") || str_eq method (codes "HEAD")

-- The headers before the tokens.
unfoldable pub default_headers : Input → Options → Map Str
unfolding merge_headers set_default
default_headers input options =
    set_default (is_json_type options.response_type) (codes "accept")
      (codes "application/json, application/problem+json")
      (set_default (is_json_text options.body) (codes "content-type") (codes "application/json")
        (merge_headers (input_headers input ++ (options.headers ∷ []))))

-- `customFetch` up to its call of `fetch`.
unfoldable pub prepare :
    {N B : Type 0} → Runtime N → Config → Input → Options → Outcome N B Prepared
unfolding default_headers attach_token apply_base_url resolve_method
prepare rt config input₀ options =
    let input = apply_base_url rt.normalize_url config.base_url input₀ in
    let method = resolve_method rt.to_upper input options.method in
    if has_body options.body && takes_no_body method
    then type_error (codes "customFetch: " ++ (method ++ codes " requests cannot have a body."))
    else do
      with_auth ←
          attach_token (codes "authorization") (codes "Bearer ") config.auth_token_getter
            (default_headers input options)
      headers ← attach_token (codes "x-pcs-admin-token") [] config.admin_token_getter with_auth
      value (record { input = input; method = method; headers = headers; body = options.body })
