-- ===== src/Client/Request.antt =====
-- `request` of web/src/api/client.ts: one call of `fetch`, its headers, and its errors.
use mcp_project_server.Prelude.{ℕ, Bool, [], ◌++◌, Option, none, some, if◌then◌else◌}
use mcp_project_server.Js.Str.{Str, codes}
use mcp_project_server.Js.Map.{Map, get, put}
use mcp_project_server.Js.Json.{Json, empty, property}

-- The options of `fetch` that the client sets; the names of headers are in lower case.
pub record RequestInit : Type 0 where
  pub method : Str
  pub headers : Map Str
  pub body : Option Str

-- What `request` is called with.
pub record Request : Type 0 where
  pub path : Str
  pub init : RequestInit

-- A response: `json` is `none` where the body is no JSON text.
pub record Response (N : Type 0) : Type 0 where
  pub ok : Bool
  pub status : ℕ
  pub status_text : Str
  pub json : Option (Json N)

-- `message` is the body's `error` as it is sent; the conversion of an `error` that is no string
-- is the runtime's.
pub record ApiError (N : Type 0) : Type 0 where
  pub status : ℕ
  pub message : Json N
  pub available : Option (Json N)

-- How a promise ends: with a value, with the client's error, or with an error of the runtime,
-- where there is no response or its body is no JSON text.
pub data Outcome (N A : Type 0) : Type 0 where
  value : A → Outcome N A
  api_error : ApiError N → Outcome N A
  runtime_error : Outcome N A

abbrev pub no_init : RequestInit
no_init = record { method = codes "GET"; headers = []; body = none }

-- `if (!headers.has("accept"))`: the value that the caller set is the first argument.
abbrev pub accepting : Option Str → Map Str → Map Str
accepting (some _) headers = headers
accepting none headers = put headers (codes "accept") (codes "application/json")

-- The headers that are sent.
unfoldable pub with_accept : Map Str → Map Str
with_accept headers = accepting (get headers (codes "accept")) headers

module _ {N : Type 0} where
  -- `value ?? {}`, and `{}` for a body that is no JSON text
  unfoldable pub error_body : Option (Json N) → Json N
  error_body none = Json.object empty
  error_body (some Json.null) = Json.object empty
  error_body (some v) = v

  -- `value ?? fallback`
  unfoldable pub present : Option (Json N) → Json N → Json N
  present none fallback = fallback
  present (some Json.null) fallback = fallback
  present (some v) fallback = v

  abbrev or_runtime_error : Option (Json N) → Outcome N (Json N)
  or_runtime_error none = runtime_error
  or_runtime_error (some v) = value v

  module _ (show : ℕ → Str) where
    -- What `request` makes of a response; `show` is the runtime's `String` of a number.
    unfoldable pub received : Response N → Outcome N (Json N)
    unfolding error_body present property get
    received response =
        let body = error_body response.json in
        if response.ok
        then or_runtime_error response.json
        else api_error (record {
          status = response.status;
          message =
              present (property body (codes "error"))
                (Json.string (show response.status ++ (codes " " ++ response.status_text)));
          available = property body (codes "available");
        })

    -- `fetch` answers with a response, or its promise is rejected.
    unfoldable pub request :
        (base_url : Str) → (Request → Option (Response N)) → Request → Outcome N (Json N)
    unfolding received with_accept get put
    request base_url fetch r =
        elim (fetch (record {
          path = base_url ++ r.path;
          init = record r.init { headers = with_accept r.init.headers };
        })) [ none ↦ runtime_error | some response ↦ received response ]
