-- ===== src/Client/Endpoints.antt =====
-- The functions of web/src/api/client.ts, one for each route: the requests that they send.
use mathlib.Core.Option
use mcp_project_server.Prelude.{ℕ, Bool, [], ◌∷◌, ◌++◌, Option, none, some, if◌then◌else◌}
use mcp_project_server.Js.Str.{Str, codes, str_eq}
use mcp_project_server.Js.Map.{Map, put}
use mcp_project_server.Api.Projects.{RegisterProjectInput, EntryInput, ExportFormat}
use mcp_project_server.Api.Settings.{AiSettingsInput}
use mcp_project_server.Api.Search.{SearchOptions, SearchScope}
use mcp_project_server.Client.Request.{Request, RequestInit, no_init}

-- The payload of `setFocus`, and that of `reindex`.
pub record FocusBody : Type 0 where
  pub text : Str

pub record ReindexBody : Type 0 where
  pub incremental : Bool

abbrev pub format_name : ExportFormat → Str
format_name ExportFormat.markdown = codes "markdown"
format_name ExportFormat.json = codes "json"

abbrev pub scope_name : SearchScope → Str
scope_name SearchScope.project = codes "project"
scope_name SearchScope.subtree = codes "subtree"
scope_name SearchScope.files = codes "files"
scope_name SearchScope.focus = codes "focus"

-- `params.set(name, value)` where the value is given.
abbrev pub set_given : Map Str → Str → Option Str → Map Str
set_given params name none = params
set_given params name (some v) = put params name v

-- What the runtime provides: `encodeURIComponent`, `URLSearchParams.toString`, `String` of a
-- number, and `JSON.stringify` of the payloads.
pub record Runtime : Type 1 where
  pub encode : Str → Str
  pub query : Map Str → Str
  pub show : ℕ → Str
  pub stringify : {A : Type 0} → A → Str

module _ (rt : Runtime) where
  unfoldable pub json_body : {A : Type 0} → A → RequestInit
  json_body payload = record {
    method = codes "GET";
    headers = (codes "content-type", codes "application/json") ∷ [];
    body = some (rt.stringify payload);
  }

  abbrev pub plain : Str → Request
  plain path = record { path = path; init = no_init }

  abbrev pub without_body : Str → Str → Request
  without_body method path = record { path = path; init = record no_init { method = method } }

  abbrev pub with_body : {A : Type 0} → Str → Str → A → Request
  with_body method path payload = record {
    path = path;
    init = record (json_body payload) { method = method };
  }

  unfoldable pub project_path : Str → Str → Str
  project_path project suffix = codes "/api/projects/" ++ (rt.encode project ++ suffix)

  -- `params.append("requirement_id", requirementId)`
  abbrev pub append_requirement : Map Str → Str → Map Str
  append_requirement params requirement_id =
      params ++ ((codes "requirement_id", requirement_id) ∷ [])

  -- `scope !== undefined && scope !== ""`
  abbrev unless_empty : Option Str → Option Str
  unless_empty none = none
  unless_empty (some scope) = if str_eq scope [] then none else some scope

  unfoldable pub get_health : Request
  get_health = plain (codes "/api/health")

  unfoldable pub get_ai_settings : Request
  get_ai_settings = plain (codes "/api/admin/ai-settings")

  unfoldable pub update_ai_settings : {N : Type 0} → AiSettingsInput N → Str → Request
  update_ai_settings input admin_token =
      let body = json_body input in
      record {
        path = codes "/api/admin/ai-settings";
        init = record body {
          method = codes "PATCH";
          headers = put body.headers (codes "x-pcs-admin-token") admin_token;
        };
      }

  unfoldable pub list_projects : Request
  list_projects = plain (codes "/api/projects")

  unfoldable pub register_project : RegisterProjectInput → Request
  register_project input = with_body (codes "POST") (codes "/api/projects") input

  unfoldable pub get_briefing : Str → Request
  get_briefing project = plain (project_path project (codes "/briefing"))

  unfoldable pub export_project_context : Str → ExportFormat → Request
  export_project_context project format =
      let params = (codes "format", format_name format) ∷ [] in
      plain (project_path project (codes "/export?" ++ rt.query params))

  unfoldable pub get_section : Str → Str → Bool → Request
  get_section project section include_resolved =
      let query = if include_resolved then codes "?include_resolved=true" else [] in
      plain (project_path project (codes "/sections/" ++ (rt.encode section ++ query)))

  unfoldable pub add_entry : Str → EntryInput → Request
  add_entry project input = with_body (codes "POST") (project_path project (codes "/entries")) input

  unfoldable pub update_entry : Str → Str → EntryInput → Request
  update_entry project entry_id input =
      with_body (codes "PATCH") (project_path project (codes "/entries/" ++ rt.encode entry_id))
        input

  unfoldable pub resolve_entry : Str → Str → Request
  resolve_entry project entry_id =
      without_body (codes "POST")
        (project_path project (codes "/entries/" ++ (rt.encode entry_id ++ codes "/resolve")))

  unfoldable pub set_focus : Str → Str → Request
  set_focus project text =
      with_body {A = FocusBody} (codes "PUT") (project_path project (codes "/focus"))
        (record { text = text })

  unfoldable pub get_index_status : Str → Request
  get_index_status project = plain (project_path project (codes "/index"))

  unfoldable pub reindex : Str → Bool → Request
  reindex project incremental =
      with_body {A = ReindexBody} (codes "POST") (project_path project (codes "/reindex"))
        (record { incremental = incremental })

  unfoldable pub get_code_map : Str → Option Str → Option ℕ → Request
  get_code_map project scope depth =
      let params =
        set_given (set_given [] (codes "scope") (unless_empty scope)) (codes "depth")
          (Option.map rt.show depth) in
      let query = rt.query params in
      plain (
        project_path project
          (codes "/code-map" ++ (if str_eq query [] then [] else codes "?" ++ query)))

  unfoldable pub get_source : Str → Str → Request
  get_source project path =
      let params = (codes "path", path) ∷ [] in
      plain (project_path project (codes "/source?" ++ rt.query params))

  unfoldable pub search_code : Str → Str → SearchOptions → Request
  search_code project text options =
      let params =
        set_given
          (set_given
            (set_given ((codes "q", text) ∷ []) (codes "scope")
              (Option.map scope_name options.scope))
            (codes "subtree") options.subtree)
          (codes "limit") (Option.map rt.show options.limit) in
      plain (project_path project (codes "/search?" ++ rt.query params))
