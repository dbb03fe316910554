-- ===== src/Fetch/Calls.antt =====
-- `customFetch`: a whole call.
use mcp_project_server.Prelude.{Option, none, some, if◌then◌else◌}
use mcp_project_server.Fetch.Media.{Runtime, Response, Body}
use mcp_project_server.Fetch.Errors.{RequestInfo, api_error as make_api_error}
use mcp_project_server.Fetch.Bodies.{
  Outcome, api_error, runtime_error, ◌>>=◌, parse_error_body, parse_success_body, ResponseType,
}
use mcp_project_server.Fetch.Requests.{Config, Input, Options, Prepared, prepare, resolve_url}

-- `fetch`, with `none` where its promise fails.
abbrev pub Fetch : Type 0 → Type 0
Fetch B = Prepared → Option (Response B)

abbrev pub info_of : Prepared → RequestInfo
info_of p = record { method = p.method; url = resolve_url p.input }

module _ {N B : Type 0} (rt : Runtime N) where
  abbrev pub throw_api_error : Response B → RequestInfo → Body N B → Outcome N B (Body N B)
  throw_api_error response info data_ = api_error (make_api_error rt.show response data_ info)

  -- `customFetch` after its call of `fetch`.
  unfoldable pub handle_response : ResponseType → RequestInfo → Response B → Outcome N B (Body N B)
  unfolding parse_error_body parse_success_body
  handle_response response_type info response =
      if response.ok
      then parse_success_body rt response response_type info
      else parse_error_body rt response info.method >>= throw_api_error response info

  abbrev pub answer : ResponseType → RequestInfo → Option (Response B) → Outcome N B (Body N B)
  answer response_type info none = runtime_error
  answer response_type info (some response) = handle_response response_type info response

  unfoldable pub custom_fetch : Fetch B → Config → Input → Options → Outcome N B (Body N B)
  unfolding prepare handle_response
  custom_fetch fetch config input options = do
    p ← prepare rt config input options
    answer options.response_type (info_of p) (fetch p)
