-- ===== src/Client/Calls.antt =====
-- `getAiSettings` and `updateAiSettings` of web/src/api/client.ts: a request, and the check of its
-- response.
use mcp_project_server.Prelude.{
  ◌≢◌, ◌⊎◌, ◌++◌, arith, if◌then◌else◌, ℕ, Bool, true, false, ◌≡◌, refl, Option, none, some,
  Option-cases, Bool-cases, inl, inr,
}
use mcp_project_server.Js.Str.{str_eq_iff, str_eq, Str, codes}
use mcp_project_server.Js.Map.{Map, get, get-put}
use mcp_project_server.Js.Json.{Json, own, property}
use mcp_project_server.Api.Settings.{AiSettings, AiSettingsInput}
use mcp_project_server.Client.Request.{
  error_body, present, accepting, Request, Response, Outcome, value, api_error, runtime_error,
  received, request, with_accept,
}
use mcp_project_server.Client.Endpoints.{Runtime, get_ai_settings, update_ai_settings}
use mcp_project_server.Client.Settings.{◌>>=◌, parse_ai_settings}

module _ (rt : Runtime) {N : Type 0} (is_finite : N → Bool) (base_url : Str)
    (fetch : Request → Option (Response N)) where
  unfoldable pub fetch_ai_settings : Outcome N (AiSettings N)
  unfolding request
  fetch_ai_settings =
      request rt.show base_url fetch (get_ai_settings rt) >>= parse_ai_settings is_finite

  unfoldable pub send_ai_settings : AiSettingsInput N → Str → Outcome N (AiSettings N)
  unfolding request
  send_ai_settings input admin_token =
      request rt.show base_url fetch (update_ai_settings rt input admin_token)
      >>= parse_ai_settings is_finite

abbrev pub or_else : Option Str → Option Str → Option Str
or_else (some v) other = some v
or_else none other = other

get-accepting :
    (headers : Map Str) (name : Str) (o : Option Str)
    → get headers (codes "accept") ≡ o
    → get (accepting o headers) name
      ≡ or_else
          (get headers name)
          (if str_eq (codes "accept") name then some (codes "application/json") else none)
get-accepting headers name (some v) e = ground (arith, str_eq_iff (codes "accept") name)
get-accepting headers name none e = ground (
  arith,
  get-put headers (codes "accept") name (codes "application/json"),
  str_eq_iff (codes "accept") name,
)

-- A request carries every header that the caller set, and an `accept` header where the caller set
-- none: no other header is added and none is changed.
pub get-with_accept :
    (headers : Map Str) (name : Str)
    → get (with_accept headers) name
      ≡ or_else
          (get headers name)
          (if str_eq (codes "accept") name then some (codes "application/json") else none)
unfolding with_accept
get-with_accept headers name = get-accepting headers name _ refl

module _ {N : Type 0} where
  -- A property that is absent or null, as against one that says something.
  abbrev pub IsSilent : Option (Json N) → Type 0
  IsSilent p = (p ≡ none) ⊎ (p ≡ some Json.null)

  abbrev pub Says : Option (Json N) → Json N → Type 0
  Says p v = (p ≡ some v) × (v ≢ Json.null)

  -- The message is what the body says under "error", or else the fallback.
  abbrev pub HasMessage : Option (Json N) → Json N → Json N → Type 0
  HasMessage none fallback m = m ≡ fallback
  HasMessage (some body) fallback m =
      Says (property body (codes "error")) m
      ⊎ (IsSilent (property body (codes "error")) × (m ≡ fallback))

  present-cases :
      (p : Option (Json N)) (fallback : Json N)
      → Says p (present p fallback) ⊎ (IsSilent p × (present p fallback ≡ fallback))
  unfolding present
  present-cases none fallback = inr (inl refl, refl)
  present-cases (some Json.null) fallback = inr (inr refl, refl)
  present-cases (some (Json.boolean b)) fallback = inl (refl, λ e. ground arith)
  present-cases (some (Json.number n)) fallback = inl (refl, λ e. ground arith)
  present-cases (some (Json.string t)) fallback = inl (refl, λ e. ground arith)
  present-cases (some (Json.array a)) fallback = inl (refl, λ e. ground arith)
  present-cases (some (Json.object o)) fallback = inl (refl, λ e. ground arith)

  error-HasMessage :
      (json : Option (Json N)) (fallback : Json N)
      → HasMessage json fallback (present (property (error_body json) (codes "error")) fallback)
  unfolding error_body
  error-HasMessage none fallback = unfold present property own in refl
  error-HasMessage (some Json.null) fallback = unfold present property own in inr (inl refl, refl)
  error-HasMessage (some (Json.boolean b)) fallback = present-cases _ fallback
  error-HasMessage (some (Json.number n)) fallback = present-cases _ fallback
  error-HasMessage (some (Json.string t)) fallback = present-cases _ fallback
  error-HasMessage (some (Json.array a)) fallback = present-cases _ fallback
  error-HasMessage (some (Json.object o)) fallback = present-cases _ fallback

  module _ (show : ℕ → Str) where
    -- What a response becomes.
    abbrev pub IsReceived : Response N → Outcome N (Json N) → Type 0
    IsReceived r (value v) = (r.ok ≡ true) × (r.json ≡ some v)
    IsReceived r (api_error e) =
        (r.ok ≡ false)
        × (e.status ≡ r.status)
        × HasMessage r.json (Json.string (show r.status ++ (codes " " ++ r.status_text))) e.message
    IsReceived r runtime_error = (r.ok ≡ true) × (r.json ≡ none)

    -- A response with an error status becomes the client's error with that status, whatever its
    -- body is; its message is the body's "error", or, where that is absent or null or the body is
    -- no JSON text, the status and its text. Any other response becomes its JSON value, or an error
    -- of the runtime if it has none.
    pub received-IsReceived : (r : Response N) → IsReceived r (received show r)
    unfolding received
    received-IsReceived r = elim (Bool-cases r.ok) [
      | inl good ↦ elim (Option-cases r.json) [
        | inl absent ↦ rw (good, absent) (refl, refl)
        | inr (v, there) ↦ rw (good, there) (refl, refl)
      ]
      | inr bad ↦ rw bad (refl, refl, error-HasMessage r.json _)
    ]
