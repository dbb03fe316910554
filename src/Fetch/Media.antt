-- ===== src/Fetch/Media.antt =====
-- The tests of custom-fetch.ts on responses: media types, empty bodies and JSON by its looks. The
-- names of headers are in lower case.
use mcp_project_server.Prelude.{
  ℕ, Bool, false, ◌||◌, Option, none, some, List, [], ◌∷◌, ◌==◌, if◌then◌else◌,
}
use mcp_project_server.Js.Str.{
  Str, codes, str_eq, starts_with, ends_with, split, trim, trim_start, is_space,
}
use mcp_project_server.Js.Map.{Map, get}
use mcp_project_server.Js.Json.{Json}

-- A response. `body_is_null` is the test of `hasNoBody`; `text` is `none` where reading it fails.
-- `blob` is `none` where the runtime has no such method, and `some none` where reading it fails.
-- `B` stands for blobs.
pub record Response (B : Type 0) : Type 0 where
  pub ok : Bool
  pub status : ℕ
  pub status_text : Str
  pub url : Str
  pub headers : Map Str
  pub body_is_null : Bool
  pub text : Option Str
  pub blob : Option (Option B)

-- What is read from a response's body.
pub data Body (N B : Type 0) : Type 0 where
  nothing : Body N B
  json : Json N → Body N B
  text : Str → Body N B
  blob : B → Body N B

-- What the runtime provides: `toLowerCase`, `toUpperCase`, `String` of a number, `JSON.parse`
-- with `none` where it throws, and the text of a `URL` that is made of a text.
pub record Runtime (N : Type 0) : Type 0 where
  pub to_lower : Str → Str
  pub to_upper : Str → Str
  pub show : ℕ → Str
  pub parse_json : Str → Option (Json N)
  pub normalize_url : Str → Str

-- `NO_BODY_STATUS`
abbrev pub no_body_status : ℕ → Bool
no_body_status status = status == 204 || (status == 205 || status == 304)

abbrev is_zero : Option Str → Bool
is_zero none = false
is_zero (some s) = str_eq s (codes "0")

unfoldable pub has_no_body : {B : Type 0} → Response B → Str → Bool
unfolding get str_eq
has_no_body response method =
    str_eq method (codes "HEAD")
    || (no_body_status response.status
        || (is_zero (get response.headers (codes "content-length")) || response.body_is_null))

-- `value.split(";", 1)[0]`
abbrev pub first_part : List Str → Str
first_part [] = []
first_part (s ∷ _) = s

abbrev pub media_type_of : (Str → Str) → Option Str → Option Str
media_type_of to_lower none = none
media_type_of to_lower (some value) =
    if str_eq value [] then none else some (to_lower (trim (first_part (split b';' value))))

unfoldable pub get_media_type : (Str → Str) → Map Str → Option Str
unfolding get
get_media_type to_lower headers = media_type_of to_lower (get headers (codes "content-type"))

unfoldable pub is_json_media_type : Option Str → Bool
unfolding str_eq ends_with
is_json_media_type none = false
is_json_media_type (some m) = str_eq m (codes "application/json") || ends_with m (codes "+json")

unfoldable pub is_text_media_type : Option Str → Bool
unfolding str_eq starts_with ends_with
is_text_media_type none = false
is_text_media_type (some m) =
    starts_with m (codes "text/")
    || (str_eq m (codes "application/xml")
        || (str_eq m (codes "text/xml")
            || (ends_with m (codes "+xml")
                || str_eq m (codes "application/x-www-form-urlencoded"))))

unfoldable pub strip_bom : Str → Str
strip_bom [] = []
strip_bom (c ∷ s) = if c == 0xfeff then s else c ∷ s

unfoldable pub looks_like_json : Str → Bool
unfolding starts_with trim_start is_space
looks_like_json s =
    let trimmed = trim_start is_space s in
    starts_with trimmed (codes "{") || starts_with trimmed (codes "[")
