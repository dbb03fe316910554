-- ===== src/CodeMap/Doc/Tests.antt =====
-- The document of a small project.
use mathlib.Core.Option
use mcp_project_server.Prelude.{ℕ, ◌≡◌, refl, some, [], All}
use mcp_project_server.Js.Str.{Str, codes, str_eq}
use mcp_project_server.Js.Sort.{code_order}
use mcp_project_server.CodeMap.Samples.{top, subtree}
use mcp_project_server.CodeMap.Doc.{false, or_nil, areas_of}
use mcp_project_server.CodeMap.Doc.Areas.{IsCut, areas_of-children}

abbrev digits : ℕ → Str
digits n = []

api-nonempty : str_eq (codes "src/api") [] ≡ false
unfolding str_eq
api-nonempty = refl

areas_of-children_example :
    All
      (IsCut (or_nil (Option.map (λ d. d.nodes) (some subtree))))
      (areas_of digits code_order top (some subtree))
areas_of-children_example = areas_of-children digits code_order top (some subtree)
