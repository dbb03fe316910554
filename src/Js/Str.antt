-- ===== src/Js/Str.antt =====
-- JavaScript strings, as lists of UTF-16 code units, with the methods that the clients call.
use Prim.Native.Char.{code}
use Prim.Native.String.{String}
use mcp_project_server.Prelude.{
  length, drop, ◌-◌, ℕ, ◌≡◌, refl, sym, ap, ◌⊎◌, inl, inr, Bool-cases, ==_iff, ◌↔◌, Bool, true,
  false, ◌&&◌, ◌||◌, List, [], ◌∷◌, ◌++◌, arith, subst, leb, ◌==◌, if◌then◌else◌,
}

abbrev pub Str : Type 0
Str = List ℕ

-- The code units of a literal of the basic multilingual plane.
abbrev pub codes : String → Str
codes String.[] = []
codes (String.◌∷◌ c s) = code c ∷ codes s

-- `s === t`
unfoldable pub str_eq : Str → Str → Bool
str_eq [] [] = true
str_eq [] (_ ∷ _) = false
str_eq (_ ∷ _) [] = false
str_eq (a ∷ s) (b ∷ t) = a == b && str_eq s t

-- `s.startsWith(p)`
unfoldable pub starts_with : Str → Str → Bool
starts_with _ [] = true
starts_with [] (_ ∷ _) = false
starts_with (c ∷ s) (d ∷ p) = c == d && starts_with s p

-- `s.endsWith(p)`
unfoldable pub ends_with : Str → Str → Bool
unfolding str_eq
ends_with s p = leb (length p) (length s) && str_eq (drop (length s - length p) s) p

-- `s.includes(p)`
unfoldable pub includes : Str → Str → Bool
unfolding starts_with
includes [] p = starts_with [] p
includes (c ∷ s) p = starts_with (c ∷ s) p || includes s p

abbrev cons_first : ℕ → List Str → List Str
cons_first c [] = (c ∷ []) ∷ []
cons_first c (p ∷ ps) = (c ∷ p) ∷ ps

-- `s.split(sep)` at a separator of one code unit
unfoldable pub split : ℕ → Str → List Str
split sep [] = [] ∷ []
split sep (c ∷ s) = let rest = split sep s in if c == sep then [] ∷ rest else cons_first c rest

-- Removes the longest prefix, and the longest suffix, of code units that pass the test.
unfoldable pub trim_start : (ℕ → Bool) → Str → Str
trim_start p [] = []
trim_start p (c ∷ s) = let rest = trim_start p s in if p c then rest else c ∷ s

unfoldable pub trim_end : (ℕ → Bool) → Str → Str
trim_end p [] = []
trim_end p (c ∷ s) = elim (trim_end p s) [ [] ↦ if p c then [] else c ∷ [] | d ∷ r ↦ c ∷ d ∷ r ]

-- White space and line terminators of ECMAScript.
unfoldable pub is_space : ℕ → Bool
is_space c =
    (leb 9 c && leb c 13)
    || c == 32
    || c == 0xa0
    || c == 0x1680
    || (leb 0x2000 c && leb c 0x200a)
    || c == 0x2028
    || c == 0x2029
    || c == 0x202f
    || c == 0x205f
    || c == 0x3000
    || c == 0xfeff

-- `s.trim()`
unfoldable pub trim : Str → Str
unfolding trim_start trim_end is_space
trim s = trim_end is_space (trim_start is_space s)

pub str_eq_refl : (s : Str) → str_eq s s ≡ true
unfolding str_eq
str_eq_refl [] = refl
str_eq_refl (c ∷ s) = ground (arith, str_eq_refl s)

pub str_eq_sound : (s t : Str) → str_eq s t ≡ true → s ≡ t
unfolding str_eq
str_eq_sound [] [] h = refl
str_eq_sound [] (d ∷ t) h = ground arith
str_eq_sound (c ∷ s) [] h = ground arith
str_eq_sound (c ∷ s) (d ∷ t) h = ground (arith, str_eq_sound s t)

pub str_eq_iff : (s t : Str) → (str_eq s t ≡ true) ↔ (s ≡ t)
str_eq_iff s t = (str_eq_sound s t, λ e. subst (λ u. str_eq s u ≡ true) e (str_eq_refl s))

starts_with_sound : (s p : Str) → starts_with s p ≡ true → (r : Str) × (s ≡ p ++ r)
unfolding starts_with
starts_with_sound s [] h = (s, refl)
starts_with_sound [] (d ∷ p) h = absurd (cc)
starts_with_sound (c ∷ s) (d ∷ p) h =
    let (r, e) = starts_with_sound s p (ground arith) in (r, ground arith)

pub starts_with-append : (p r : Str) → starts_with (p ++ r) p ≡ true
unfolding starts_with
starts_with-append [] r = refl
starts_with-append (d ∷ p) r = ground (arith, starts_with-append p r)

pub starts_with_iff : (s p : Str) → (starts_with s p ≡ true) ↔ ((r : Str) × (s ≡ p ++ r))
starts_with_iff s p = (
  starts_with_sound s p,
  λ (r, e). subst (λ u. starts_with u p ≡ true) (sym e) (starts_with-append p r),
)

-- A split has a first part: all of the text, or what stands before the first separator.
pub split_head :
    (sep : ℕ) (s : Str)
    → (p : Str) × (ps : List Str) × (split sep s ≡ p ∷ ps)
      × ((s ≡ p) ⊎ ((r : Str) × (s ≡ p ++ sep ∷ r)))
unfolding split
split_head sep [] = ([], [], refl, inl refl)
split_head sep (c ∷ s) =
    let (p, ps, parts, cut) = split_head sep s in
    elim (Bool-cases (c == sep)) [
      | inl same ↦
          ([], split sep s, rw same refl, inr (s, ap (λ (x : ℕ). x ∷ s) ((==_iff c sep).0 same)))
      | inr other ↦ (
        c ∷ p,
        ps,
        rw (other, parts) refl,
        elim cut [
          | inl whole ↦ inl (ap (λ (t : Str). c ∷ t) whole)
          | inr (r, e) ↦ inr (r, ap (λ (t : Str). c ∷ t) e)
        ],
      )
    ]
