-- ===== src/Js/Number.antt =====
-- What the forms do with JavaScript numbers, which are floating-point: they read them from a text
-- and compare them.
use mcp_project_server.Prelude.{
  ℕ, ◌+◌, ◌*◌, ◌-◌, ◌&&◌, Bool, true, false, Option, none, some, [], ◌∷◌, leb, ltb, if◌then◌else◌,
}
use mcp_project_server.Js.Str.{Str}

-- `Number(text)`, `Number.isFinite`, `<`, `<=`, and the literals.
pub record Numbers (N : Type 0) : Type 0 where
  pub number : Str → N
  pub is_finite : N → Bool
  pub lt : N → N → Bool
  pub le : N → N → Bool
  pub literal : ℕ → N

-- An instance on natural numbers in decimal digits; `none` is NaN.
abbrev on_numbers : (ℕ → ℕ → Bool) → Option ℕ → Option ℕ → Bool
on_numbers f (some a) (some b) = f a b
on_numbers f _ _ = false

abbrev digits_from : ℕ → Str → Option ℕ
digits_from n [] = some n
digits_from n (c ∷ s) =
    let rest = digits_from (n * 10 + (c - 48)) s in if leb 48 c && leb c 57 then rest else none

abbrev is_number : Option ℕ → Bool
is_number none = false
is_number (some _) = true

abbrev pub decimals : Numbers (Option ℕ)
decimals = record {
  number = digits_from 0;
  is_finite = is_number;
  lt = on_numbers ltb;
  le = on_numbers leb;
  literal = some;
}
