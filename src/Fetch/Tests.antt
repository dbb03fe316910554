-- ===== src/Fetch/Tests.antt =====
-- Small calls of `customFetch`.
use mcp_project_server.Prelude.{ℕ, ◌≡◌, refl, none, some, [], ◌∷◌, false}
use mcp_project_server.Js.Str.{codes, str_eq, starts_with, trim, trim_end, split}
use mcp_project_server.Js.Map.{get}
use mcp_project_server.Js.Json.{Json, Fields, property}
use mcp_project_server.Fetch.Media.{
  strip_bom, Runtime, Response, json, has_no_body, get_media_type, is_json_media_type,
  looks_like_json,
}
use mcp_project_server.Fetch.Errors.{build_error_message, api_error as make_api_error}
use mcp_project_server.Fetch.Bodies.{value, api_error, json_type, ◌>>=◌}
use mcp_project_server.Fetch.Requests.{
  Config, path, Options, text_body, Prepared, given, prepare, set_base_url,
}
use mcp_project_server.Fetch.Calls.{info_of, custom_fetch}
use mcp_project_server.Fetch.Answered.{Explains, custom_fetch-Explains}
use mcp_project_server.Fetch.Prepared.{prepare-get_headers}

-- A runtime whose texts are in the case they are asked for, whose only status is 404 and whose only
-- JSON is an object with a title.
abbrev problem : Json ℕ
problem =
    Json.object (Fields.field (codes "title") (Json.string (codes " Not Found ")) Fields.empty)

abbrev runtime : Runtime ℕ
runtime = record {
  to_lower = λ s. s;
  to_upper = λ s. s;
  show = λ n. codes "404";
  parse_json = λ s. some problem;
  normalize_url = λ s. s;
}

abbrev not_found : Response ℕ
not_found = record {
  ok = false;
  status = 404;
  status_text = codes "Not Found";
  url = [];
  headers = (codes "content-type", codes "application/problem+json; charset=utf-8") ∷ [];
  body_is_null = false;
  text = some (codes "{}");
  blob = none;
}

abbrev config : Config
config = record {
  base_url = none;
  auth_token_getter = some (given (some (codes "t")));
  admin_token_getter = some (given (some (codes "a")));
}

abbrev options : Options
options = record {
  method = some (codes "POST");
  headers = (codes "accept", codes "text/plain") ∷ [];
  body = text_body (codes " {}");
  response_type = json_type;
}

abbrev handed : Prepared
handed = record {
  input = path (codes "/x");
  method = codes "POST";
  headers =
      (codes "accept", codes "text/plain")
      ∷ (codes "content-type", codes "application/json")
      ∷ (codes "authorization", codes "Bearer t")
      ∷ (codes "x-pcs-admin-token", codes "a")
      ∷ [];
  body = text_body (codes " {}");
}

prepared : prepare {B = ℕ} runtime config (path (codes "/x")) options ≡ value handed
unfolding prepare str_eq ◌>>=◌ get looks_like_json
prepared = refl

message_of_problem :
    build_error_message {N = ℕ} runtime.show not_found (json problem)
    ≡ codes "HTTP 404 Not Found: Not Found"
unfolding build_error_message property trim str_eq
message_of_problem = refl

custom_fetch_of_not_found :
    custom_fetch runtime (λ p. some not_found) config (path (codes "/x")) options
    ≡ api_error (
        make_api_error runtime.show not_found
          (json problem)
          (record { method = codes "POST"; url = codes "/x" }))
unfolding custom_fetch str_eq ◌>>=◌ get looks_like_json has_no_body get_media_type trim split
    is_json_media_type strip_bom
custom_fetch_of_not_found = refl

custom_fetch-Explains_example :
    Explains runtime
      (info_of handed)
      not_found
      (custom_fetch runtime (λ p. some not_found) config (path (codes "/x")) options)
custom_fetch-Explains_example =
    custom_fetch-Explains runtime (λ p. some not_found) config (path (codes "/x")) options handed
      not_found prepared refl

prepare-get_headers_example : get handed.headers (codes "accept") ≡ some (codes "text/plain")
unfolding get str_eq
prepare-get_headers_example =
    prepare-get_headers runtime config (path (codes "/x")) options handed (codes "accept")
      (codes "text/plain") (refl, tt) refl prepared

abbrev handed_under_base : Prepared
handed_under_base = record handed { input = path (codes "https://h/x") }

prepared_under_base :
    prepare {B = ℕ} runtime
      (set_base_url (some (codes "https://h//")) config)
      (path (codes "/x"))
      options
    ≡ value handed_under_base
unfolding prepare str_eq ◌>>=◌ get looks_like_json set_base_url trim_end starts_with
prepared_under_base = refl
