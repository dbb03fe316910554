-- ===== src/Fetch/Answered.antt =====
-- What each outcome of `customFetch` says of the response.
use mcp_project_server.Prelude.{
  ◌≡◌, refl, ◌⊎◌, inl, inr, true, false, Option, none, some, [], if-cases, if-both, if◌then◌else◌,
}
use mcp_project_server.Js.Str.{Str, str_eq, trim}
use mcp_project_server.Js.Json.{Json}
use mcp_project_server.Fetch.Media.{
  Runtime, Response, Body, nothing, json, text, has_no_body, strip_bom,
}
use mcp_project_server.Fetch.Errors.{RequestInfo, response_parse_error, api_error as api_error_of}
use mcp_project_server.Fetch.Bodies.{
  read_text, read_blob, blob_or_text, auto_type, json_type, text_type, blob_type, Outcome, value,
  api_error, parse_error, type_error, runtime_error, ResponseType, no_blob, parse_error_body,
  parse_success_body, parse_json_body, read_as, ◌>>=◌,
}
use mcp_project_server.Fetch.Requests.{Config, Input, Options, Prepared, prepare}
use mcp_project_server.Fetch.Calls.{throw_api_error, Fetch, info_of, custom_fetch, handle_response}

-- Reading the response's body fails.
abbrev pub IsUnreadable : {B : Type 0} → Response B → Type 0
IsUnreadable response = (response.text ≡ none) ⊎ (response.blob ≡ some none)

-- What an outcome says of the response to the request.
unfoldable pub Explains :
    {N B : Type 0} → Runtime N → RequestInfo → Response B → Outcome N B (Body N B) → Type 0
Explains rt info response (value body) =
    (response.ok ≡ true) × ((has_no_body response info.method ≡ false) ⊎ (body ≡ nothing))
Explains rt info response (api_error e) =
    (response.ok ≡ false)
    × (e.status ≡ response.status)
    × (e.headers ≡ response.headers)
    × (e.method ≡ info.method)
    × ((has_no_body response info.method ≡ false) ⊎ (e.data_ ≡ nothing))
Explains rt info response (parse_error e) =
    (response.ok ≡ true)
    × (has_no_body response info.method ≡ false)
    × (response.text ≡ some e.raw_body)
    × (rt.parse_json (strip_bom e.raw_body) ≡ none)
    × (e.status ≡ response.status)
Explains rt info response (type_error message) =
    (response.ok ≡ true) × (response.blob ≡ none) × (message ≡ no_blob)
Explains rt info response runtime_error = IsUnreadable response

-- Reading a text fails, or goes on with it.
bind-read :
    {N B C : Type 0} (P : Outcome N B C → Type 0) (t : Option Str) (f : Str → Outcome N B C)
    → (t ≡ none → P runtime_error)
    → ((s : Str) → t ≡ some s → P (f s))
    → P (elim t [ none ↦ runtime_error | some s ↦ value s ] >>= f)
unfolding ◌>>=◌
bind-read P none f fails goes = fails refl
bind-read P (some s) f fails goes = goes s refl

module _ {N B : Type 0} (rt : Runtime N) (info : RequestInfo) (response : Response B) where
  abbrev Explained : Outcome N B (Body N B) → Type 0
  Explained = Explains rt info response

  parsed-Explained :
      (raw : Str) (parsed : Option (Json N))
      → response.ok ≡ true
      → has_no_body response info.method ≡ false
      → response.text ≡ some raw
      → rt.parse_json (strip_bom raw) ≡ parsed
      → Explained (elim parsed [
        | none ↦ parse_error (response_parse_error rt.show response raw info)
        | some v ↦ value (json v)
      ])
  unfolding Explains response_parse_error
  parsed-Explained raw none ok has_body read e = (ok, has_body, read, e, refl)
  parsed-Explained raw (some v) ok has_body read e = (ok, inl has_body)

  parse_json_body-Explained :
      response.ok ≡ true
      → has_no_body response info.method ≡ false
      → Explained (parse_json_body rt response info)
  unfolding Explains parse_json_body
  parse_json_body-Explained ok has_body =
      bind-read Explained response.text _ (λ e. inl e)
        (λ raw read.
          if-both Explained (str_eq (trim (strip_bom raw)) []) (ok, inr refl)
            (parsed-Explained raw (rt.parse_json (strip_bom raw)) ok has_body read refl))

  read_blob-Explained :
      (b : Option (Option B))
      → response.blob ≡ b
      → response.ok ≡ true
      → has_no_body response info.method ≡ false
      → Explained (elim b [ none ↦ type_error no_blob | some b ↦ read_blob b ])
  unfolding Explains
  read_blob-Explained none e ok has_body = (ok, e, refl)
  read_blob-Explained (some none) e ok has_body = inr e
  read_blob-Explained (some (some b)) e ok has_body = (ok, inl has_body)

  read_text-Explained :
      response.ok ≡ true
      → has_no_body response info.method ≡ false
      → Explained (do s ← read_text rt response; value (if str_eq s [] then nothing else text s))
  unfolding Explains
  read_text-Explained ok has_body =
      bind-read Explained response.text _ (λ e. inl e) (λ s read. (ok, inl has_body))

  read_as-Explained :
      (response_type : ResponseType)
      → response.ok ≡ true
      → has_no_body response info.method ≡ false
      → Explained (read_as rt response_type response info)
  unfolding read_as
  read_as-Explained json_type ok has_body = parse_json_body-Explained ok has_body
  read_as-Explained text_type ok has_body = read_text-Explained ok has_body
  read_as-Explained auto_type ok has_body = read_text-Explained ok has_body
  read_as-Explained blob_type ok has_body = read_blob-Explained response.blob refl ok has_body

  -- The body of an error is read or cannot be read.
  abbrev ErrorBody : Outcome N B (Body N B) → Type 0
  ErrorBody (value body) = (has_no_body response info.method ≡ false) ⊎ (body ≡ nothing)
  ErrorBody runtime_error = IsUnreadable response
  ErrorBody _ = ⊥

  blob_or_text-ErrorBody :
      (b : Option (Option B))
      → response.blob ≡ b
      → has_no_body response info.method ≡ false
      → ErrorBody (blob_or_text rt b response)
  blob_or_text-ErrorBody none e has_body =
      bind-read ErrorBody response.text _ (λ e. inl e) (λ s read. inl has_body)
  blob_or_text-ErrorBody (some none) e has_body = inr e
  blob_or_text-ErrorBody (some (some b)) e has_body = inl has_body

  parse_error_body-ErrorBody : ErrorBody (parse_error_body rt response info.method)
  unfolding parse_error_body
  parse_error_body-ErrorBody =
      if-cases ErrorBody (has_no_body response info.method) (λ no_body. inr refl)
        (λ has_body.
          if-both ErrorBody _ (blob_or_text-ErrorBody response.blob refl has_body)
            (bind-read ErrorBody response.text _ (λ e. inl e) (λ s read. inl has_body)))

  thrown-Explained :
      (o : Outcome N B (Body N B))
      → response.ok ≡ false
      → ErrorBody o
      → Explained (o >>= throw_api_error rt response info)
  unfolding Explains api_error_of ◌>>=◌
  thrown-Explained (value body) failed h = (failed, refl, refl, refl, h)
  thrown-Explained runtime_error failed h = h
  thrown-Explained (api_error e) failed h = absurd h
  thrown-Explained (parse_error e) failed h = absurd h
  thrown-Explained (type_error m) failed h = absurd h

  parse_success_body-Explained :
      (response_type : ResponseType)
      → response.ok ≡ true
      → Explained (parse_success_body rt response response_type info)
  unfolding Explains parse_success_body
  parse_success_body-Explained response_type ok =
      if-cases Explained (has_no_body response info.method) (λ no_body. (ok, inr refl))
        (λ has_body. read_as-Explained _ ok has_body)

  pub handle_response-Explained :
      (response_type : ResponseType) → Explained (handle_response rt response_type info response)
  unfolding handle_response
  handle_response-Explained response_type =
      if-cases Explained response.ok (λ ok. parse_success_body-Explained response_type ok)
        (λ failed.
          thrown-Explained (parse_error_body rt response info.method) failed
            parse_error_body-ErrorBody)

-- Where the request is prepared and answered, the outcome tells of the answer: a value comes from
-- a response that is ok, and is null if that has no body; an `ApiError` from one that is not, with
-- its status and headers and the request's method; a `ResponseParseError` from one that is ok and
-- has a body that is no JSON, and holds that body; a `TypeError` from a runtime without blobs; and
-- another error from a body that cannot be read.
pub custom_fetch-Explains :
    {N B : Type 0} (rt : Runtime N) (fetch : Fetch B) (config : Config) (input : Input)
    (options : Options) (p : Prepared) (response : Response B)
    → prepare {B = B} rt config input options ≡ value p
    → fetch p ≡ some response
    → Explains rt (info_of p) response (custom_fetch rt fetch config input options)
unfolding custom_fetch ◌>>=◌
custom_fetch-Explains rt fetch config input options p response prepared answered =
    rw (prepared, answered)
      (handle_response-Explained rt (info_of p) response options.response_type)
