-- ===== src/CodeMap/Related.antt =====
-- `relatedEntries` of web/src/lib/codemap.ts: the context entries whose files touch a path.
pub mod Touch
mod Tests
use mcp_project_server.Prelude.{
  ℕ, Bool, true, false, ◌||◌, List, [], ◌∷◌, ◌++◌, any, ◌==◌, if◌then◌else◌,
}
use mcp_project_server.Js.Str.{Str, codes, str_eq, starts_with, trim, trim_start, trim_end}
use mcp_project_server.Api.Types.{Entry}

pub record RelatedEntry : Type 0 where
  pub section : Str
  pub entry : Entry

abbrev is_slash : ℕ → Bool
is_slash c = c == b'/'

-- `linked.trim().replace(/^\/+|\/+$/g, "")`
unfoldable pub link_path : Str → Str
link_path linked = trim_end is_slash (trim_start is_slash (trim linked))

unfoldable pub path_touches : Str → Str → Bool
path_touches linked target =
    let p = link_path linked in
    if str_eq p [] || str_eq target []
    then false
    else str_eq p target
      || (starts_with target (p ++ codes "/") || starts_with p (target ++ codes "/"))

-- The loop over the entries of one section.
unfoldable pub related_in : Str → List Entry → Str → List RelatedEntry
related_in section [] path = []
related_in section (e ∷ es) path =
    let rest = related_in section es path in
    if any (λ f. path_touches f path) e.linked_files
    then record { section = section; entry = e } ∷ rest
    else rest

-- The sections stand in the order of `Object.entries`.
unfoldable pub related_entries : List (Str × List Entry) → Str → List RelatedEntry
related_entries [] path = []
related_entries ((section, es) ∷ rest) path =
    related_in section es path ++ related_entries rest path
