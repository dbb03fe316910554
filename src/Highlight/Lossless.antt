-- ===== src/Highlight/Lossless.antt =====
-- `highlight` ends, loses no text, and makes tidy tokens.
use mcp_project_server.Prelude.{
  subst, ℕ, suc, zero, ◌<◌, ◌≡◌, refl, ap, Bool, Option, none, some, List, [], ◌∷◌, ◌++◌,
  append-nil, append_assoc, length, length-append, arith,
}
use mcp_project_server.Js.Str.{Str}
use mcp_project_server.Highlight.{Token, TokenKind, text, push, scan, highlight, next_piece, Cut}
use mcp_project_server.Highlight.Pieces.{Cuts, Joins, next_piece-Cuts}
use mcp_project_server.Highlight.Tokens.{texts, IsTidy, texts-push, push-IsTidy}

-- What a run of the loop yields.
pub record Scanned (whole : Str) (out : Option (List Token)) : Type 0 where
  pub tokens : List Token
  pub ends : out ≡ some tokens
  pub lossless : texts tokens ≡ whole
  pub tidy : IsTidy tokens

shorter : (s : Str) (cut : Cut) → Cuts s cut → length cut.1 < length s
unfolding Joins
shorter s ([], b) h = absurd (cc (h.nonempty))
shorter s (c ∷ a, b) h =
    let whole : (c ∷ a) ++ b ≡ s = h.joins in omega (arith, length-append a b, ap length whole)

Scanned-subst : {v w : Str} {out : Option (List Token)} → v ≡ w → Scanned v out → Scanned w out
Scanned-subst {out} e h = subst (λ (w : Str). Scanned w out) e h

plain_joins :
    (said plain s : Str) (cut : Cut)
    → Cuts s cut
    → said ++ ((plain ++ cut.0) ++ cut.1) ≡ said ++ (plain ++ s)
unfolding Joins
plain_joins said plain s (a, b) h =
    let whole : a ++ b ≡ s = h.joins in rw (append_assoc plain a b, whole) refl

token_joins :
    (tokens : List Token) (plain s : Str) (cut : Cut) (kind : TokenKind)
    → Cuts s cut
    → texts (push (push tokens plain text) cut.0 kind) ++ cut.1 ≡ texts tokens ++ (plain ++ s)
unfolding Joins
token_joins tokens plain s (a, b) kind h =
    let whole : a ++ b ≡ s = h.joins in
    rw
      (
        texts-push (push tokens plain text) a kind,
        texts-push tokens plain text,
        append_assoc (texts tokens ++ plain) a b,
        whole,
        append_assoc (texts tokens) plain s,
      )
      refl

scan-Scanned :
    (fuel : ℕ) (hash_comments : Bool) (plain rest : Str) (tokens : List Token)
    → length rest < fuel
    → IsTidy tokens
    → Scanned (texts tokens ++ (plain ++ rest)) (scan fuel hash_comments plain rest tokens)
unfolding scan
scan-Scanned zero hash_comments plain rest tokens h tidy = absurd (ground arith)
scan-Scanned (suc fuel) hash_comments plain [] tokens h tidy = record {
  tokens = push tokens plain text;
  ends = refl;
  lossless = rw (texts-push, append-nil) refl;
  tidy = push-IsTidy tokens plain text tidy;
}
scan-Scanned (suc fuel) hash_comments plain (c ∷ s) tokens h tidy =
    let p = next_piece hash_comments plain c s in
    let cuts = next_piece-Cuts hash_comments plain c s in
    let fits : length p.cut.1 < fuel = omega (arith, shorter (c ∷ s) p.cut cuts) in
    elim p.kind
      as (λ (o : Option TokenKind). Scanned (texts tokens ++ (plain ++ c ∷ s)) (elim o [
        | none ↦ scan fuel hash_comments (plain ++ p.cut.0) p.cut.1 tokens
        | some kind ↦
            scan fuel hash_comments [] p.cut.1 (push (push tokens plain text) p.cut.0 kind)
      ])) [
        | none ↦
            Scanned-subst (plain_joins (texts tokens) plain (c ∷ s) p.cut cuts)
              (scan-Scanned fuel hash_comments (plain ++ p.cut.0) p.cut.1 tokens fits tidy)
        | some kind ↦ Scanned-subst (token_joins tokens plain (c ∷ s) p.cut kind cuts) (
            scan-Scanned fuel hash_comments [] p.cut.1 (push (push tokens plain text) p.cut.0 kind)
              fits
              (push-IsTidy (push tokens plain text) p.cut.0 kind
                (push-IsTidy tokens plain text tidy)))
      ]

-- Highlighting ends on every source, and makes tokens whose texts together are the source; none
-- of them is empty, and no two neighbours are of one kind.
pub highlight-Scanned :
    (to_lower : Str → Str) (source : Str) (language : Option Str)
    → Scanned source (highlight to_lower source language)
unfolding highlight
highlight-Scanned to_lower source language =
    scan-Scanned (suc (length source)) _ [] source [] (omega arith) tt
