-- ===== src/Highlight/Pieces.antt =====
-- Every round of the loop cuts a part off the text that is left, and loses nothing.
use mcp_project_server.Prelude.{
  ℕ, ◌≡◌, refl, ap, ◌∙◌, Bool, true, false, not, ◌&&◌, ◌||◌, [], ◌∷◌, ◌++◌, append_assoc, length,
  take, drop, take-append-drop, arith, ◌==◌, if-both, if-cases,
}
use mcp_project_server.Js.Str.{Str, codes, starts_with}
use mcp_project_server.Highlight.{
  ident_start, ident_start, ends_in_ident, is_quote, starts_comment, is_triple, Cut, Piece, span,
  through_close, through_delim, then_cut, optional, exponent, decimal, number_match, is_empty,
  opening, string_literal, next_piece, before, kind_of_word, is_keyword, hex_char, digit_char,
  is_digit, ident_char, radix_mark,
}

-- The two parts of a cut make the text.
unfoldable pub Joins : Str → Cut → Type 0
Joins s cut = cut.0 ++ cut.1 ≡ s

Joins-before : (c : ℕ) (s : Str) (cut : Cut) → Joins s cut → Joins (c ∷ s) (before c cut)
unfolding Joins before
Joins-before c s (a, b) h = ap (λ (t : Str). c ∷ t) h

Joins-then_cut :
    (s : Str) (a : Cut) (f : Str → Cut) → Joins s a → Joins a.1 (f a.1) → Joins s (then_cut a f)
unfolding Joins then_cut
Joins-then_cut s (a, b) f h k = append_assoc a (f b).0 (f b).1 ∙ (ap (λ (t : Str). a ++ t) k ∙ h)

span-Joins : (p : ℕ → Bool) (s : Str) → Joins s (span p s)
unfolding span Joins
span-Joins p [] = refl
span-Joins p (c ∷ s) =
    if-both (Joins (c ∷ s)) (p c) (Joins-before c s (span p s) (span-Joins p s)) refl

through_close-Joins : (s : Str) → Joins s (through_close s)
unfolding through_close Joins
through_close-Joins [] = refl
through_close-Joins (c ∷ []) = refl
through_close-Joins (c ∷ d ∷ s) =
    if-both (Joins (c ∷ d ∷ s)) (c == b'*' && d == b'/') refl
      (Joins-before c (d ∷ s) _ (through_close-Joins (d ∷ s)))

through_delim-Joins : (delim s : Str) → Joins s (through_delim delim s)
unfolding through_delim Joins
through_delim-Joins delim [] = refl
through_delim-Joins delim (c ∷ []) = refl
through_delim-Joins delim (c ∷ d ∷ s) =
    if-both (Joins (c ∷ d ∷ s)) (c == b'\\')
      (Joins-before c (d ∷ s) _ (Joins-before d s _ (through_delim-Joins delim s)))
      (if-both (Joins (c ∷ d ∷ s)) (starts_with (c ∷ d ∷ s) delim)
        (take-append-drop (length delim) (c ∷ d ∷ s))
        (Joins-before c (d ∷ s) _ (through_delim-Joins delim (d ∷ s))))

optional-Joins : (p : ℕ → Bool) (s : Str) → Joins s (optional p s)
unfolding optional Joins
optional-Joins p [] = refl
optional-Joins p (c ∷ s) = if-both (Joins (c ∷ s)) (p c) refl refl

exponent-Joins : (s : Str) → Joins s (exponent s)
unfolding exponent Joins then_cut
exponent-Joins [] = refl
exponent-Joins (c ∷ s) =
    let sign = optional (λ x. x == b'+' || x == b'-') s in
    let digits = span is_digit sign.1 in
    if-both (Joins (c ∷ s)) ((c == b'e' || c == b'E') && not (is_empty digits.0))
      (ap (λ (t : Str). c ∷ t)
        (Joins-then_cut s sign (span is_digit) (optional-Joins _ s) (span-Joins is_digit sign.1)))
      refl

decimal-Joins : (s : Str) → Joins s (decimal s)
unfolding decimal
decimal-Joins s = Joins-then_cut _ _ _ (optional-Joins _ s) (
    Joins-then_cut _ _ _ (span-Joins digit_char _) (
      Joins-then_cut _ _ _ (optional-Joins _ _)
        (Joins-then_cut _ _ _ (span-Joins is_digit _) (exponent-Joins _))))

number_match-Joins : (s : Str) → Joins s (number_match s)
unfolding number_match Joins
number_match-Joins [] = decimal-Joins []
number_match-Joins (c ∷ []) = decimal-Joins (c ∷ [])
number_match-Joins (c ∷ d ∷ s) =
    if-both (Joins (c ∷ d ∷ s)) ((c == b'0' && radix_mark d) && not (is_empty (span hex_char s).0))
      (ap (λ (t : Str). c ∷ d ∷ t) (span-Joins hex_char s)) (decimal-Joins (c ∷ d ∷ s))

string_literal-Joins : (s : Str) → Joins s (string_literal s)
unfolding string_literal Joins
string_literal-Joins s =
    Joins-then_cut s (opening s) _ (take-append-drop _ s) (through_delim-Joins _ _)

-- A cut that makes the text, and takes something off it.
pub record Cuts (s : Str) (cut : Cut) : Type 0 where
  pub joins : Joins s cut
  pub nonempty : is_empty cut.0 ≡ false

then_cut-nonempty :
    (a : Cut) (f : Str → Cut) → is_empty a.0 ≡ false → is_empty (then_cut a f).0 ≡ false
unfolding then_cut
then_cut-nonempty ([], b) f h = absurd (cc)
then_cut-nonempty (c ∷ a, b) f h = refl

then_cut-Cuts :
    (s : Str) (a : Cut) (f : Str → Cut) → Cuts s a → Joins a.1 (f a.1) → Cuts s (then_cut a f)
then_cut-Cuts s a f h k = record {
  joins = Joins-then_cut s a f h.joins k;
  nonempty = then_cut-nonempty a f h.nonempty;
}

span-Cuts : (p : ℕ → Bool) (c : ℕ) (s : Str) → p c ≡ true → Cuts (c ∷ s) (span p (c ∷ s))
span-Cuts p c s h = record {
  joins = span-Joins p (c ∷ s);
  nonempty = unfold span before in rw h refl;
}

optional-Cuts : (p : ℕ → Bool) (c : ℕ) (s : Str) → p c ≡ true → Cuts (c ∷ s) (optional p (c ∷ s))
optional-Cuts p c s h = record {
  joins = optional-Joins p (c ∷ s);
  nonempty = unfold optional in rw h refl;
}

decimal-Cuts : (c : ℕ) (s : Str) → is_digit c ≡ true → Cuts (c ∷ s) (decimal (c ∷ s))
decimal-Cuts c s h = record {
  joins = decimal-Joins (c ∷ s);
  nonempty =
      unfold decimal in
      then_cut-nonempty (optional is_digit (c ∷ s)) _ ((optional-Cuts is_digit c s h).nonempty);
}

number_match-Cuts : (c : ℕ) (s : Str) → is_digit c ≡ true → Cuts (c ∷ s) (number_match (c ∷ s))
unfolding number_match
number_match-Cuts c [] h = decimal-Cuts c [] h
number_match-Cuts c (d ∷ s) h = record {
  joins = number_match-Joins (c ∷ d ∷ s);
  nonempty =
      if-both (λ (cut : Cut). is_empty cut.0 ≡ false)
        ((c == b'0' && radix_mark d) && not (is_empty (span hex_char s).0)) refl
        (decimal-Cuts c (d ∷ s) h).nonempty;
}

string_literal-Cuts : (c : ℕ) (s : Str) → Cuts (c ∷ s) (string_literal (c ∷ s))
string_literal-Cuts c s = record {
  joins = string_literal-Joins (c ∷ s);
  nonempty =
      unfold string_literal in
      then_cut-nonempty (opening (c ∷ s)) _
        (if-both (λ (n : ℕ). is_empty (take n (c ∷ s)) ≡ false) (is_triple (c ∷ s)) refl refl);
}

kind_of_word-Cuts : (s : Str) (cut : Cut) → Cuts s cut → Cuts s (kind_of_word cut).cut
kind_of_word-Cuts s (word, rest) h = if-both (λ (p : Piece). Cuts s p.cut) (is_keyword word) h h

block-Cuts :
    (c : ℕ) (s : Str) → Cuts (c ∷ s) (then_cut (take 2 (c ∷ s), drop 2 (c ∷ s)) through_close)
block-Cuts c s =
    then_cut-Cuts (c ∷ s) _ _
      (record { joins = unfold Joins in take-append-drop 2 (c ∷ s); nonempty = refl })
      (through_close-Joins _)

char-Cuts : (c : ℕ) (s : Str) → Cuts (c ∷ s) (c ∷ [], s)
unfolding Joins
char-Cuts c s = record { joins = refl; nonempty = refl }

hash_not_newline :
    (hash_comments : Bool) (c : ℕ) (s : Str)
    → starts_comment hash_comments (c ∷ s) ≡ true
    → not (c == 10) ≡ true
unfolding starts_with
hash_not_newline hash_comments c s h = ground arith

-- Every round takes something off the text, and loses nothing.
pub next_piece-Cuts :
    (hash_comments : Bool) (plain : Str) (c : ℕ) (s : Str)
    → Cuts (c ∷ s) (next_piece hash_comments plain c s).cut
unfolding next_piece
next_piece-Cuts hash_comments plain c s =
    let P = λ (p : Piece). Cuts (c ∷ s) p.cut in
    if-cases P (starts_comment hash_comments (c ∷ s))
      (λ h. span-Cuts (λ x. not (x == 10)) c s (hash_not_newline hash_comments c s h))
      λ _.
        if-cases P (starts_with (c ∷ s) (codes "/*")) (λ _. block-Cuts c s)
          λ _.
            if-cases P (is_quote c) (λ _. string_literal-Cuts c s)
              λ _.
                if-cases P (is_digit c && not (ends_in_ident plain))
                  (λ h. number_match-Cuts c s (ground arith))
                  λ _.
                    if-cases P (ident_start c)
                      (λ h. kind_of_word-Cuts (c ∷ s) _ (span-Cuts ident_char c s (ground arith)))
                      (λ _. char-Cuts c s)
