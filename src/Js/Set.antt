-- ===== src/Js/Set.antt =====
-- A JavaScript `Set` of strings: its elements in the order of insertion. `has` also stands for
-- `Array.prototype.includes`.
use mcp_project_server.Prelude.{
  true, suc, ◌≤◌, length, All, ◌≡◌, refl, Bool, false, ◌||◌, List, [], ◌∷◌, ◌++◌, arith,
  if◌then◌else◌,
}
use mcp_project_server.Js.Str.{Str, str_eq, str_eq_iff}

unfoldable pub has : List Str → Str → Bool
has [] s = false
has (x ∷ xs) s = str_eq x s || has xs s

unfoldable pub add : List Str → Str → List Str
unfolding has
add xs s = if has xs s then xs else xs ++ s ∷ []

abbrev pub Distinct : List Str → Type 0
Distinct [] = Unit
Distinct (x ∷ xs) = (has xs x ≡ false) × Distinct xs

pub has-append : (xs ys : List Str) (s : Str) → has (xs ++ ys) s ≡ (has xs s || has ys s)
unfolding has
has-append [] ys s = refl
has-append (x ∷ xs) ys s = ground (arith, has-append xs ys s)

pub has-add : (xs : List Str) (s t : Str) → has (add xs s) t ≡ (str_eq s t || has xs t)
unfolding has add
has-add xs s t = ground (arith, has-append xs (s ∷ []) t, str_eq_iff s t)

pub Distinct-snoc :
    (xs : List Str) (s : Str) → Distinct xs → has xs s ≡ false → Distinct (xs ++ s ∷ [])
unfolding has
Distinct-snoc [] s d h = (refl, tt)
Distinct-snoc (x ∷ xs) s (p, d) h = (
  ground (arith, has-append xs (s ∷ []) x, str_eq_iff x s, str_eq_iff s x),
  Distinct-snoc xs s d (ground arith),
)

pub add-Distinct : (xs : List Str) (s : Str) → Distinct xs → Distinct (add xs s)
unfolding add
add-Distinct xs s d = ground (arith, Distinct-snoc xs s d)

-- The set without one element.
remove : List Str → Str → List Str
remove [] s = []
remove (x ∷ xs) s = if str_eq x s then xs else x ∷ remove xs s

length-remove : (xs : List Str) (s : Str) → has xs s ≡ true → suc (length (remove xs s)) ≡ length xs
unfolding has remove
length-remove [] s h = absurd (cc)
length-remove (x ∷ xs) s h = ground (arith, length-remove xs s)

has-remove :
    (xs : List Str) (s t : Str) → has xs t ≡ true → str_eq s t ≡ false → has (remove xs s) t ≡ true
unfolding has remove
has-remove [] s t h ne = h
has-remove (x ∷ xs) s t h ne =
    ground (arith, has-remove xs s t, str_eq_iff x s, str_eq_iff x t, str_eq_iff s t)

All-has-remove :
    (xs ys : List Str) (s : Str)
    → has xs s ≡ false
    → All (λ x. has ys x ≡ true) xs
    → All (λ x. has (remove ys s) x ≡ true) xs
unfolding has
All-has-remove [] ys s out h = tt
All-has-remove (x ∷ xs) ys s out (p, h) = (
  has-remove ys s x p (ground (arith, str_eq_iff x s, str_eq_iff s x)),
  All-has-remove xs ys s (ground arith) h,
)

-- A set of elements of another list has at most its length.
pub length-le_of_subset :
    (xs ys : List Str) → Distinct xs → All (λ x. has ys x ≡ true) xs → length xs ≤ length ys
length-le_of_subset [] ys d h = omega arith
length-le_of_subset (x ∷ xs) ys (out, d) (p, h) = omega (
  arith,
  length-remove ys x p,
  length-le_of_subset xs (remove ys x) d (All-has-remove xs ys x out h),
)
