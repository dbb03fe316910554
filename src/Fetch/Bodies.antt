-- ===== src/Fetch/Bodies.antt =====
-- How custom-fetch.ts reads a response's body.
use mcp_project_server.Prelude.{
  Bool, true, false, not, ◌&&◌, ◌||◌, Option, none, some, [], if◌then◌else◌,
}
use mcp_project_server.Js.Str.{Str, codes, str_eq, trim}
use mcp_project_server.Js.Json.{Json}
use mcp_project_server.Fetch.Media.{
  Response, Body, Runtime, nothing, json, text, blob, has_no_body, get_media_type,
  is_json_media_type, is_text_media_type, strip_bom, looks_like_json,
}
use mcp_project_server.Fetch.Errors.{
  RequestInfo, ApiError, ResponseParseError, response_parse_error,
}

-- How a call ends: with a body, with one of the two errors of the client, with a `TypeError` and
-- its message, or with an error of the runtime, where `fetch` or a read fails.
pub data Outcome (N B A : Type 0) : Type 0 where
  value : A → Outcome N B A
  api_error : ApiError N B → Outcome N B A
  parse_error : ResponseParseError → Outcome N B A
  type_error : Str → Outcome N B A
  runtime_error : Outcome N B A

infixl 10 ◌>>=◌
unfoldable pub ◌>>=◌ : {N B A C : Type 0} → Outcome N B A → (A → Outcome N B C) → Outcome N B C
value a >>= f = f a
api_error e >>= f = api_error e
parse_error e >>= f = parse_error e
type_error m >>= f = type_error m
runtime_error >>= f = runtime_error

pub data ResponseType : Type 0 where
  json_type text_type blob_type auto_type : ResponseType

abbrev pub is_truthy : Option Str → Bool
is_truthy none = false
is_truthy (some s) = not (str_eq s [])

abbrev pub is_some : Option Str → Bool
is_some none = false
is_some (some _) = true

abbrev unless_auto : ResponseType → ResponseType → ResponseType
unless_auto auto_type inferred = inferred
unless_auto given inferred = given

abbrev pub no_blob : Str
no_blob =
    codes
      "Blob responses are not supported in this runtime. Use responseType \"json\" or \"text\" instead."

abbrev pub read_blob : {N B : Type 0} → Option B → Outcome N B (Body N B)
read_blob none = runtime_error
read_blob (some b) = value (blob b)

module _ {N B : Type 0} (rt : Runtime N) where
  -- `response.text()`
  abbrev pub read_text : Response B → Outcome N B Str
  read_text response = elim response.text [ none ↦ runtime_error | some s ↦ value s ]

  abbrev json_or_raw : Str → Option (Json N) → Body N B
  json_or_raw raw none = text raw
  json_or_raw raw (some v) = json v

  -- The part of `parseErrorBody` that reads text.
  unfoldable pub error_text : Option Str → Str → Body N B
  error_text media_type raw =
      let normalized = strip_bom raw in
      if str_eq (trim normalized) []
      then nothing
      else if is_json_media_type media_type || looks_like_json normalized
      then json_or_raw raw (rt.parse_json normalized)
      else text raw

  -- `typeof response.blob === "function" ? response.blob() : response.text()`
  abbrev pub blob_or_text : Option (Option B) → Response B → Outcome N B (Body N B)
  blob_or_text (some b) response = read_blob b
  blob_or_text none response = read_text response >>= λ s. value (text s)

  unfoldable pub parse_error_body : Response B → Str → Outcome N B (Body N B)
  unfolding error_text
  parse_error_body response method =
      let media_type = get_media_type rt.to_lower response.headers in
      if has_no_body response method
      then value nothing
      else if is_truthy media_type
          && (not (is_json_media_type media_type) && not (is_text_media_type media_type))
      then blob_or_text response.blob response
      else (do raw ← read_text response; value (error_text media_type raw))

  abbrev json_or_fail : Outcome N B (Body N B) → Option (Json N) → Outcome N B (Body N B)
  json_or_fail failure none = failure
  json_or_fail failure (some v) = value (json v)

  unfoldable pub parse_json_body : Response B → RequestInfo → Outcome N B (Body N B)
  parse_json_body response info = do
    raw ← read_text response
    if str_eq (trim (strip_bom raw)) []
        then value nothing
        else json_or_fail (parse_error (response_parse_error rt.show response raw info))
            (rt.parse_json (strip_bom raw))

  unfoldable pub infer_response_type : Response B → ResponseType
  infer_response_type response =
      let media_type = get_media_type rt.to_lower response.headers in
      if is_json_media_type media_type
      then json_type
      else if is_text_media_type media_type || not (is_some media_type)
      then text_type
      else blob_type

  -- The `switch` on the effective type; `auto` is not left.
  unfoldable pub read_as : ResponseType → Response B → RequestInfo → Outcome N B (Body N B)
  unfolding parse_json_body
  read_as json_type response info = parse_json_body response info
  read_as blob_type response info = elim response.blob [
    | none ↦ type_error no_blob
    | some b ↦ read_blob b
  ]
  read_as _ response info = do
    s ← read_text response
    value (if str_eq s [] then nothing else text s)

  unfoldable pub parse_success_body :
      Response B → ResponseType → RequestInfo → Outcome N B (Body N B)
  unfolding infer_response_type read_as
  parse_success_body response response_type info =
      if has_no_body response info.method
      then value nothing
      else read_as (unless_auto response_type (infer_response_type response)) response info
