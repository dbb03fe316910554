-- ===== src/Highlight/Tokens.antt =====
-- `push`: what a list of tokens says, and its shape.
use mcp_project_server.Prelude.{
  ◌≡◌, refl, sym, ap, ◌∙◌, false, List, [], ◌∷◌, ◌++◌, append-nil, append_assoc, Bool-cases, inl,
  inr,
}
use mcp_project_server.Js.Str.{Str}
use mcp_project_server.Highlight.{Token, TokenKind, push_last, push, is_empty, same_kind}

-- The text of all tokens.
abbrev pub texts : List Token → Str
texts [] = []
texts (t ∷ ts) = t.content ++ texts ts

-- No token is empty, and no two neighbours are of one kind.
abbrev pub IsTidy : List Token → Type 0
IsTidy [] = Unit {0}
IsTidy (t ∷ []) = is_empty t.content ≡ false
IsTidy (t ∷ u ∷ ts) =
    (is_empty t.content ≡ false) × (same_kind t.kind u.kind ≡ false) × IsTidy (u ∷ ts)

texts-push_last :
    (ts : List Token) (content : Str) (kind : TokenKind)
    → texts (push_last ts content kind) ≡ texts ts ++ content
unfolding push_last
texts-push_last [] content kind = append-nil content
texts-push_last (t ∷ []) content kind = elim (Bool-cases (same_kind t.kind kind)) [
  | inl same ↦ rw (same, append-nil, append-nil) refl
  | inr other ↦ rw (other, append-nil, append-nil) refl
]
texts-push_last (t ∷ u ∷ ts) content kind =
    ap (λ (r : Str). t.content ++ r) (texts-push_last (u ∷ ts) content kind)
    ∙ sym (append_assoc t.content (texts (u ∷ ts)) content)

pub texts-push :
    (ts : List Token) (content : Str) (kind : TokenKind)
    → texts (push ts content kind) ≡ texts ts ++ content
unfolding push
texts-push ts [] kind = sym (append-nil (texts ts))
texts-push ts (c ∷ s) kind = texts-push_last ts (c ∷ s) kind

is_empty-append : (s t : Str) → is_empty s ≡ false → is_empty (s ++ t) ≡ false
is_empty-append [] t h = absurd (cc)
is_empty-append (c ∷ s) t h = refl

push_last-IsTidy :
    (ts : List Token) (content : Str) (kind : TokenKind)
    → is_empty content ≡ false
    → IsTidy ts
    → IsTidy (push_last ts content kind)
unfolding push_last
push_last-IsTidy [] content kind e h = e
push_last-IsTidy (t ∷ []) content kind e h = elim (Bool-cases (same_kind t.kind kind)) [
  | inl same ↦ rw same (is_empty-append t.content content h)
  | inr other ↦ rw other (h, other, e)
]
push_last-IsTidy (t ∷ u ∷ []) content kind e h = elim (Bool-cases (same_kind u.kind kind)) [
  | inl same ↦ rw same (h.0, h.1, is_empty-append u.content content h.2)
  | inr other ↦ rw other (h.0, h.1, (h.2, other, e))
]
push_last-IsTidy (t ∷ u ∷ v ∷ ts) content kind e h =
    (h.0, h.1, push_last-IsTidy (u ∷ v ∷ ts) content kind e h.2)

pub push-IsTidy :
    (ts : List Token) (content : Str) (kind : TokenKind) → IsTidy ts → IsTidy (push ts content kind)
unfolding push
push-IsTidy ts [] kind h = h
push-IsTidy ts (c ∷ s) kind h = push_last-IsTidy ts (c ∷ s) kind refl h
