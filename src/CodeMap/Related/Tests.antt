-- ===== src/CodeMap/Related/Tests.antt =====
-- The related entries of a small project.
use mcp_project_server.Prelude.{In, ◌↔◌, refl, inl, inr, List, [], ◌∷◌, arith}
use mcp_project_server.Js.Str.{is_space, Str, codes, is_space, trim, trim_start, trim_end}
use mcp_project_server.Api.Types.{Entry}
use mcp_project_server.CodeMap.Samples.{touched}
use mcp_project_server.CodeMap.Related.{
  related_entries, trim_end, trim_start, trim, RelatedEntry, link_path,
}
use mcp_project_server.CodeMap.Related.Touch.{IsOnOnePath, IsRelated, related_entries_iff}

abbrev sections : List (Str × List Entry)
sections = (codes "bugs", touched ∷ []) ∷ []

file-IsOnOnePath : IsOnOnePath (link_path (codes "src/api/")) (codes "src/api/client.ts")
unfolding link_path trim trim_start trim_end is_space
file-IsOnOnePath = inl ((λ e. ground arith), inr (codes "client.ts", refl))

abbrev related : RelatedEntry
related = record { section = codes "bugs"; entry = touched }

related-IsRelated : IsRelated sections (codes "src/api/client.ts") related
related-IsRelated = record {
  entries = touched ∷ [];
  listed = inl refl;
  among = inl refl;
  file = codes "src/api/";
  linked = inl refl;
  touches = file-IsOnOnePath;
}

related_entries_iff_example :
    In related (related_entries sections (codes "src/api/client.ts"))
    ↔ IsRelated sections (codes "src/api/client.ts") related
related_entries_iff_example = related_entries_iff sections (codes "src/api/client.ts") related
