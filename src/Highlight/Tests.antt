-- ===== src/Highlight/Tests.antt =====
-- Highlighting small sources, after web/src/lib/highlight.test.ts.
use mcp_project_server.Prelude.{◌≡◌, refl, none, some, [], ◌∷◌}
use mcp_project_server.Js.Str.{Str, codes, str_eq, starts_with}
use mcp_project_server.Js.Set.{has}
use mcp_project_server.Highlight.{
  Token, TokenKind, keyword, string, comment, number, text, highlight, scan, next_piece, push, span,
  through_close, through_delim, then_cut, before, string_literal, number_match, decimal, optional,
  exponent, is_keyword,
}
use mcp_project_server.Highlight.Lossless.{Scanned, highlight-Scanned}

abbrev token : Str → TokenKind → Token
token content kind = record { content = content; kind = kind }

-- `toLowerCase` on text that is in lower case.
abbrev unchanged : Str → Str
unchanged s = s

tokens_of_code :
    highlight unchanged (codes "if x == 'a\\'b' { 0x1F } // end") (some (codes "rust"))
    ≡ some (
        token (codes "if") keyword
        ∷ token (codes " x == ") text
        ∷ token (codes "'a\\'b'") string
        ∷ token (codes " { ") text
        ∷ token (codes "0x1F") number
        ∷ token (codes " } ") text
        ∷ token (codes "// end") comment
        ∷ [])
unfolding highlight scan next_piece push span through_close through_delim then_cut before
    string_literal number_match decimal optional exponent is_keyword starts_with str_eq has
tokens_of_code = refl

-- A hash starts a comment in Python, and a digit after a letter is no number.
tokens_of_python :
    highlight unchanged (codes "x1 = 1.5e-3 # one") (some (codes "python"))
    ≡ some (
        token (codes "x1 = ") text
        ∷ token (codes "1.5e-3") number
        ∷ token (codes " ") text
        ∷ token (codes "# one") comment
        ∷ [])
unfolding highlight scan next_piece push span through_close through_delim then_cut before
    string_literal number_match decimal optional exponent is_keyword starts_with str_eq has
tokens_of_python = refl

-- An unfinished comment runs to the end.
tokens_of_comment :
    highlight unchanged (codes "a/*/ b") none
    ≡ some (token (codes "a") text ∷ token (codes "/*/ b") comment ∷ [])
unfolding highlight scan next_piece push span through_close through_delim then_cut before
    string_literal number_match decimal optional exponent is_keyword starts_with str_eq has
tokens_of_comment = refl

highlight-Scanned_example :
    Scanned (codes "let x = 1;") (highlight unchanged (codes "let x = 1;") (some (codes "rust")))
highlight-Scanned_example = highlight-Scanned unchanged (codes "let x = 1;") (some (codes "rust"))
