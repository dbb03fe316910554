-- ===== src/Router/Tests.antt =====
-- Routes and keys at stand-ins for the runtime's functions: a slash becomes the code 1000, from
-- where on the codes are shifted by one.
use mcp_project_server.Prelude.{
  ℕ, ◌+◌, ◌-◌, ◌≡◌, ◌≢◌, refl, true, false, some, [], ◌∷◌, All, map, ltb, leb, ◌==◌, arith,
  if◌then◌else◌,
}
use mcp_project_server.Js.Str.{Str, codes, str_eq}
use mcp_project_server.Router.{
  ProjectView, Query, query_key, view_name, project_route, match_path, is_refreshable,
}
use mcp_project_server.Router.Routes.{IsCodec}
use mcp_project_server.Js.Str.{starts_with, split}
use mcp_project_server.Js.Map.{put, get}
use mcp_project_server.Router.{match_segments, segments}
use mcp_project_server.Router.Shell.{shell, find_view}
use mcp_project_server.Router.Refresh.{belongs, is_refreshable-belongs}

abbrev escaped : ℕ → ℕ
escaped c = if c == 47 then 1000 else if leb 1000 c then c + 1 else c

abbrev unescaped : ℕ → ℕ
unescaped c = if ltb 1000 c then c - 1 else if c == 1000 then 47 else c

abbrev encode : Str → Str
encode s = map escaped s

abbrev decode : Str → Str
decode s = map unescaped s

decode-encode : (s : Str) → decode (encode s) ≡ s
decode-encode [] = refl
decode-encode (c ∷ s) = ground (arith, decode-encode s)

encode_no_slash : (s : Str) → All (λ c. c ≢ b'/') (encode s)
encode_no_slash [] = tt
encode_no_slash (c ∷ s) = (ground arith, encode_no_slash s)

encode_nonempty : (s : Str) → s ≢ [] → encode s ≢ []
encode_nonempty [] h = h
encode_nonempty (c ∷ s) h = λ e. ground arith

decode_plain : (v : ProjectView) → decode (view_name v) ≡ view_name v
decode_plain ProjectView.dashboard = refl
decode_plain ProjectView.requirements = refl
decode_plain ProjectView.index = refl
decode_plain ProjectView.code_map = refl

encode-IsCodec : IsCodec encode decode
encode-IsCodec = record {
  inverse = decode-encode;
  no_slash = encode_no_slash;
  nonempty = encode_nonempty;
  plain = decode_plain;
}

project-nonempty : codes "a/b" ≢ []
project-nonempty e = ground arith

decode_nonempty : (s : Str) → s ≢ [] → decode s ≢ []
decode_nonempty [] h = h
decode_nonempty (c ∷ s) h = λ e. ground arith

redirect_of_unknown :
    (shell encode decode (codes "/projects/a/b")).redirect_to ≡ some (codes "/projects/a/dashboard")
unfolding shell str_eq match_path match_segments segments split starts_with put get project_route
    find_view
redirect_of_unknown = refl

not_settings : str_eq (codes "ai-settings") (codes "p") ≡ false
unfolding str_eq
not_settings = refl

is_refreshable-belongs_example :
    is_refreshable (query_key (Query.briefing (codes "p"))) (some (codes "p")) false
    ≡ belongs (Query.briefing (codes "p")) (codes "p") false
is_refreshable-belongs_example =
    is_refreshable-belongs (Query.briefing (codes "p")) (codes "p") false not_settings

-- A project of this name has the key of the AI settings among its own.
settings_as_project :
    is_refreshable (query_key Query.ai_settings) (some (codes "ai-settings")) false ≡ true
unfolding is_refreshable query_key str_eq
settings_as_project = refl
