-- ===== src/Highlight.antt =====
-- web/src/lib/highlight.ts: the syntax highlighter of the node inspector. The position in the
-- source is the text that is left; `to_lower` stands for `toLowerCase`.
pub mod Pieces
pub mod Tokens
pub mod Lossless
mod Tests
use mcp_project_server.Prelude.{
  ℕ, zero, suc, ◌-◌, Bool, true, false, not, ◌&&◌, ◌||◌, Option, none, some, List, [], ◌∷◌, ◌++◌,
  length, take, drop, leb, ◌==◌, if◌then◌else◌,
}
use mcp_project_server.Js.Str.{Str, codes, str_eq, starts_with}
use mcp_project_server.Js.Set.{has}

pub data TokenKind : Type 0 where
  keyword string comment number text : TokenKind

pub record Token : Type 0 where
  pub content : Str
  pub kind : TokenKind

abbrev keywords : List Str
keywords =
    codes "abstract"
    ∷ codes "and"
    ∷ codes "as"
    ∷ codes "async"
    ∷ codes "await"
    ∷ codes "break"
    ∷ codes "case"
    ∷ codes "catch"
    ∷ codes "class"
    ∷ codes "const"
    ∷ codes "continue"
    ∷ codes "def"
    ∷ codes "default"
    ∷ codes "del"
    ∷ codes "do"
    ∷ codes "elif"
    ∷ codes "else"
    ∷ codes "enum"
    ∷ codes "except"
    ∷ codes "export"
    ∷ codes "extends"
    ∷ codes "false"
    ∷ codes "final"
    ∷ codes "finally"
    ∷ codes "fn"
    ∷ codes "for"
    ∷ codes "from"
    ∷ codes "func"
    ∷ codes "function"
    ∷ codes "go"
    ∷ codes "if"
    ∷ codes "impl"
    ∷ codes "import"
    ∷ codes "in"
    ∷ codes "instanceof"
    ∷ codes "interface"
    ∷ codes "is"
    ∷ codes "lambda"
    ∷ codes "let"
    ∷ codes "match"
    ∷ codes "mod"
    ∷ codes "mut"
    ∷ codes "new"
    ∷ codes "nil"
    ∷ codes "none"
    ∷ codes "not"
    ∷ codes "null"
    ∷ codes "or"
    ∷ codes "package"
    ∷ codes "pass"
    ∷ codes "private"
    ∷ codes "protected"
    ∷ codes "pub"
    ∷ codes "public"
    ∷ codes "raise"
    ∷ codes "return"
    ∷ codes "self"
    ∷ codes "static"
    ∷ codes "struct"
    ∷ codes "super"
    ∷ codes "switch"
    ∷ codes "this"
    ∷ codes "throw"
    ∷ codes "trait"
    ∷ codes "true"
    ∷ codes "try"
    ∷ codes "type"
    ∷ codes "typeof"
    ∷ codes "use"
    ∷ codes "var"
    ∷ codes "void"
    ∷ codes "while"
    ∷ codes "with"
    ∷ codes "yield"
    ∷ []

abbrev hash_comment_langs : List Str
hash_comment_langs =
    codes "python"
    ∷ codes "ruby"
    ∷ codes "shell"
    ∷ codes "bash"
    ∷ codes "toml"
    ∷ codes "yaml"
    ∷ codes "yml"
    ∷ codes "perl"
    ∷ codes "r"
    ∷ codes "makefile"
    ∷ []

unfoldable pub is_keyword : Str → Bool
is_keyword word = has keywords word

abbrev is_digit : ℕ → Bool
is_digit c = leb b'0' c && leb c b'9'

abbrev is_letter : ℕ → Bool
is_letter c = (leb b'A' c && leb c b'Z') || (leb b'a' c && leb c b'z')

abbrev ident_start : ℕ → Bool
ident_start c = is_letter c || (c == b'_' || c == b'$')

abbrev ident_char : ℕ → Bool
ident_char c = ident_start c || is_digit c

-- A text that is cut in two.
abbrev pub Cut : Type 0
Cut = Str × Str

unfoldable pub before : ℕ → Cut → Cut
before c (a, b) = (c ∷ a, b)

-- The longest prefix of code units that pass the test.
unfoldable pub span : (ℕ → Bool) → Str → Cut
span p [] = ([], [])
span p (c ∷ s) = let rest = span p s in if p c then before c rest else ([], c ∷ s)

-- Through the first "*/", or all of the text if there is none.
unfoldable pub through_close : Str → Cut
through_close [] = ([], [])
through_close (c ∷ []) = (c ∷ [], [])
through_close (c ∷ d ∷ s) =
    let rest = through_close (d ∷ s) in
    if c == b'*' && d == b'/' then (c ∷ d ∷ [], s) else before c rest

-- The loop over `j`: through the closing delimiter, or all of the text if there is none. A
-- backslash skips the code unit after it.
unfoldable pub through_delim : Str → Str → Cut
unfolding starts_with
through_delim delim [] = ([], [])
through_delim delim (c ∷ []) = (c ∷ [], [])
through_delim delim (c ∷ d ∷ s) =
    let escaped = through_delim delim s in
    let rest = through_delim delim (d ∷ s) in
    if c == b'\\'
    then before c (before d escaped)
    else if starts_with (c ∷ d ∷ s) delim
    then (take (length delim) (c ∷ d ∷ s), drop (length delim) (c ∷ d ∷ s))
    else before c rest

-- A cut, and a second one of what it leaves.
unfoldable pub then_cut : Cut → (Str → Cut) → Cut
then_cut (a, b) f = let (c, d) = f b in (a ++ c, d)

-- `[xXbBoO]`, `[0-9a-fA-F_]` and `[\d_]` of the pattern of numbers.
abbrev radix_mark : ℕ → Bool
radix_mark c = c == b'x' || (c == b'X' || (c == b'b' || (c == b'B' || (c == b'o' || c == b'O'))))

abbrev hex_char : ℕ → Bool
hex_char c = is_digit c || ((leb b'a' c && leb c b'f') || ((leb b'A' c && leb c b'F') || c == b'_'))

abbrev digit_char : ℕ → Bool
digit_char c = is_digit c || c == b'_'

-- One code unit, if it passes the test.
unfoldable pub optional : (ℕ → Bool) → Str → Cut
optional p [] = ([], [])
optional p (c ∷ s) = if p c then (c ∷ [], s) else ([], c ∷ s)

abbrev pub is_empty : Str → Bool
is_empty [] = true
is_empty (_ ∷ _) = false

-- `(?:[eE][+-]?\d+)?`
unfoldable pub exponent : Str → Cut
unfolding span optional
exponent [] = ([], [])
exponent (c ∷ s) =
    let (sign, after) = optional (λ x. x == b'+' || x == b'-') s in
    let (digits, rest) = span is_digit after in
    if (c == b'e' || c == b'E') && not (is_empty digits)
    then (c ∷ (sign ++ digits), rest)
    else ([], c ∷ s)

-- `\d[\d_]*\.?\d*` and the exponent, from a first digit on.
unfoldable pub decimal : Str → Cut
unfolding span optional exponent
decimal s = then_cut (optional is_digit s) λ a.
    then_cut (span digit_char a)
      λ b. then_cut (optional (λ x. x == b'.') b) λ c. then_cut (span is_digit c) exponent

-- The match of `NUMBER` at the start of a text that begins with a digit.
unfoldable pub number_match : Str → Cut
unfolding span decimal
number_match (c ∷ d ∷ s) =
    let (digits, rest) = span hex_char s in
    if (c == b'0' && radix_mark d) && not (is_empty digits)
    then (c ∷ d ∷ digits, rest)
    else decimal (c ∷ d ∷ s)
number_match s = decimal s

-- What one round of the loop consumes: a token of its own, or plain text, with the text left.
pub record Piece : Type 0 where
  pub kind : Option TokenKind
  pub cut : Cut

abbrev pub as_token : TokenKind → Cut → Piece
as_token kind cut = record { kind = some kind; cut = cut }

abbrev pub as_plain : Cut → Piece
as_plain cut = record { kind = none; cut = cut }

abbrev ends_in_ident : Str → Bool
ends_in_ident [] = false
ends_in_ident (c ∷ []) = ident_char c
ends_in_ident (c ∷ d ∷ s) = ends_in_ident (d ∷ s)

abbrev is_quote : ℕ → Bool
is_quote c = c == b'"' || (c == b'\'' || c == b'`')

abbrev is_triple : Str → Bool
is_triple s = starts_with s (b'"' ∷ b'"' ∷ b'"' ∷ []) || starts_with s (b'\'' ∷ b'\'' ∷ b'\'' ∷ [])

-- The delimiter that a text starts with, and what follows it.
abbrev opening : Str → Cut
opening s = let n = if is_triple s then 3 else 1 in (take n s, drop n s)

unfoldable pub string_literal : Str → Cut
unfolding through_delim starts_with
string_literal s = then_cut (opening s) (through_delim (opening s).0)

abbrev starts_comment : Bool → Str → Bool
starts_comment hash_comments s =
    starts_with s (codes "//") || (starts_with s (codes "#") && hash_comments)

abbrev kind_of_word : Cut → Piece
kind_of_word (word, rest) =
    if is_keyword word then as_token keyword (word, rest) else as_plain (word, rest)

-- One round of the loop at the text `c ∷ s`, with the plain text gathered so far.
unfoldable pub next_piece : Bool → Str → ℕ → Str → Piece
unfolding span through_close string_literal number_match is_keyword starts_with
next_piece hash_comments plain c s =
    if starts_comment hash_comments (c ∷ s)
    then as_token comment (span (λ x. not (x == 10)) (c ∷ s))
    else if starts_with (c ∷ s) (codes "/*")
    then as_token comment (then_cut (take 2 (c ∷ s), drop 2 (c ∷ s)) through_close)
    else if is_quote c
    then as_token string (string_literal (c ∷ s))
    else if is_digit c && not (ends_in_ident plain)
    then as_token number (number_match (c ∷ s))
    else if ident_start c
    then kind_of_word (span ident_char (c ∷ s))
    else as_plain (c ∷ [], s)

abbrev same_kind : TokenKind → TokenKind → Bool
same_kind keyword keyword = true
same_kind string string = true
same_kind comment comment = true
same_kind number number = true
same_kind text text = true
same_kind _ _ = false

unfoldable pub push_last : List Token → Str → TokenKind → List Token
push_last [] content kind = record { content = content; kind = kind } ∷ []
push_last (t ∷ []) content kind =
    if same_kind t.kind kind
    then record t { content = t.content ++ content } ∷ []
    else t ∷ record { content = content; kind = kind } ∷ []
push_last (t ∷ u ∷ ts) content kind = t ∷ push_last (u ∷ ts) content kind

unfoldable pub push : List Token → Str → TokenKind → List Token
unfolding push_last
push tokens content kind = if is_empty content then tokens else push_last tokens content kind

-- The loop, on fuel; `none` if it runs out. A token is pushed after the plain text before it.
unfoldable pub scan : ℕ → Bool → Str → Str → List Token → Option (List Token)
scan zero hash_comments plain rest tokens = none
scan (suc fuel) hash_comments plain [] tokens = some (push tokens plain text)
scan (suc fuel) hash_comments plain (c ∷ s) tokens =
    let p = next_piece hash_comments plain c s in
    elim p.kind [
      | none ↦ scan fuel hash_comments (plain ++ p.cut.0) p.cut.1 tokens
      | some kind ↦ scan fuel hash_comments [] p.cut.1 (push (push tokens plain text) p.cut.0 kind)
    ]

abbrev or_nil : Option Str → Str
or_nil none = []
or_nil (some s) = s

-- The fuel is one more than the length of the source.
unfoldable pub highlight : (to_lower : Str → Str) → Str → Option Str → Option (List Token)
unfolding has
highlight to_lower source language =
    scan (suc (length source)) (has hash_comment_langs (to_lower (or_nil language))) [] source []
