-- ===== src/Fetch/Errors.antt =====
-- The errors of custom-fetch.ts and their messages.
use mcp_project_server.Prelude.{
  ℕ, ◌-◌, Option, none, some, [], ◌++◌, length, take, ltb, if◌then◌else◌,
}
use mcp_project_server.Js.Str.{Str, codes, str_eq, trim}
use mcp_project_server.Js.Map.{Map}
use mcp_project_server.Js.Json.{Json, property}
use mcp_project_server.Fetch.Media.{Response, Body, json, text}

-- A string that is not blank, without the white space at its ends.
abbrev pub unless_blank : Str → Option Str
unless_blank s = let trimmed = trim s in if str_eq trimmed [] then none else some trimmed

abbrev string_or_none : {N : Type 0} → Option (Json N) → Option Str
string_or_none (some (Json.string s)) = unless_blank s
string_or_none _ = none

-- A body that is no JSON object has no such field.
unfoldable pub get_string_field : {N B : Type 0} → Body N B → Str → Option Str
unfolding property
get_string_field (json value) key = string_or_none (property value key)
get_string_field _ key = none

unfoldable pub truncate : Str → ℕ → Str
truncate s max_length =
    if ltb max_length (length s) then take (max_length - 1) s ++ codes "…" else s

-- `first ?? second`
abbrev pub or_else : Option Str → Option Str → Option Str
or_else none second = second
or_else (some s) second = some s

unfoldable pub message_prefix : {B : Type 0} → (ℕ → Str) → Response B → Str
message_prefix show response =
    codes "HTTP " ++ (show response.status ++ (codes " " ++ response.status_text))

-- The part of the message after the prefix and a colon, by the fields of the body.
unfoldable pub choose_detail : Option Str → Option Str → Option Str → Option Str
choose_detail (some title) (some detail) message = some (title ++ (codes " — " ++ detail))
choose_detail none (some detail) message = some detail
choose_detail title none (some message) = some message
choose_detail title none none = title

abbrev pub with_detail : Str → Option Str → Str
with_detail prefix none = prefix
with_detail prefix (some detail) = prefix ++ (codes ": " ++ detail)

unfoldable pub message_of_fields : {N B : Type 0} → Str → Body N B → Str
unfolding get_string_field choose_detail
message_of_fields prefix data_ = with_detail prefix (
    choose_detail (get_string_field data_ (codes "title")) (get_string_field data_ (codes "detail"))
      (or_else (get_string_field data_ (codes "message")) (
        or_else (get_string_field data_ (codes "error_description"))
          (get_string_field data_ (codes "error")))))

unfoldable pub message_of_text : Str → Str → Str
unfolding truncate
message_of_text prefix s =
    let trimmed = trim s in
    if str_eq trimmed [] then prefix else prefix ++ (codes ": " ++ truncate trimmed 300)

unfoldable pub build_error_message : {N B : Type 0} → (ℕ → Str) → Response B → Body N B → Str
unfolding message_prefix message_of_text message_of_fields
build_error_message show response (text s) = message_of_text (message_prefix show response) s
build_error_message show response (json (Json.string s)) =
    message_of_text (message_prefix show response) s
build_error_message show response data_ = message_of_fields (message_prefix show response) data_

-- What is sent: its method and its URL.
pub record RequestInfo : Type 0 where
  pub method : Str
  pub url : Str

-- The errors without the response itself, whose parts they repeat, and without the cause of a
-- failed parse.
pub record ApiError (N B : Type 0) : Type 0 where
  pub message : Str
  pub status : ℕ
  pub status_text : Str
  pub data_ : Body N B
  pub headers : Map Str
  pub method : Str
  pub url : Str

pub record ResponseParseError : Type 0 where
  pub message : Str
  pub status : ℕ
  pub status_text : Str
  pub headers : Map Str
  pub method : Str
  pub url : Str
  pub raw_body : Str

-- `response.url || requestInfo.url`
abbrev pub url_of : Str → Str → Str
url_of url other = if str_eq url [] then other else url

unfoldable pub api_error :
    {N B : Type 0} → (ℕ → Str) → Response B → Body N B → RequestInfo → ApiError N B
unfolding build_error_message
api_error show response data_ info = record {
  message = build_error_message show response data_;
  status = response.status;
  status_text = response.status_text;
  data_ = data_;
  headers = response.headers;
  method = info.method;
  url = url_of response.url info.url;
}

unfoldable pub response_parse_error :
    {B : Type 0} → (ℕ → Str) → Response B → Str → RequestInfo → ResponseParseError
response_parse_error show response raw_body info = record {
  message =
      codes "Failed to parse response from "
      ++ (info.method
          ++ (codes " "
              ++ (url_of response.url info.url
                  ++ (codes " ("
                      ++ (show response.status
                          ++ (codes " " ++ (response.status_text ++ codes ") as JSON")))))));
  status = response.status;
  status_text = response.status_text;
  headers = response.headers;
  method = info.method;
  url = url_of response.url info.url;
  raw_body = raw_body;
}
