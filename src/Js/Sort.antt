-- ===== src/Js/Sort.antt =====
-- `Array.prototype.sort`: the runtime's sort is stable, so that its result is determined by the
-- comparison; here it is an insertion sort.
use mathlib.Core.List.{Perm, perm_middle}
use mathlib.Core.List.Perm
use mcp_project_server.Prelude.{
  In, ◌↔◌, ◌⊎◌, suc, ◌∙◌, ap, refl, length, ℕ, ◌≤◌, ◌≡◌, Bool, true, false, List, [], ◌∷◌, All, ltb,
  arith, if◌then◌else◌, Bool-cases, inl, inr, All-map, if-both,
}
use mcp_project_server.Js.Str.{Str}

-- The sign of a comparison.
pub data Sign : Type 0 where
  negative nil positive : Sign

abbrev pub is_positive : Sign → Bool
is_positive Sign.positive = true
is_positive _ = false

-- `first || second`
abbrev pub or_sign : Sign → Sign → Sign
or_sign Sign.nil second = second
or_sign first second = first

-- The sign of `m - n`.
unfoldable pub difference : ℕ → ℕ → Sign
difference m n = if ltb m n then Sign.negative else if ltb n m then Sign.positive else Sign.nil

-- The order of code units, which `sort` without an argument takes.
unfoldable pub code_order : Str → Str → Sign
unfolding difference
code_order [] [] = Sign.nil
code_order [] (_ ∷ _) = Sign.negative
code_order (_ ∷ _) [] = Sign.positive
code_order (c ∷ s) (d ∷ t) = or_sign (difference c d) (code_order s t)

-- The numbers of the elements never increase.
abbrev pub Descends : {A : Type 0} → (A → ℕ) → List A → Type 0
Descends size [] = Unit
Descends size (x ∷ xs) = All (λ y. size y ≤ size x) xs × Descends size xs

module _ {A : Type 0} (compare : A → A → Sign) where
  unfoldable pub insert : A → List A → List A
  insert x [] = x ∷ []
  insert x (y ∷ ys) =
      let rest = insert x ys in if is_positive (compare x y) then y ∷ rest else x ∷ y ∷ ys

  unfoldable pub sort : List A → List A
  unfolding insert
  sort [] = []
  sort (x ∷ xs) = insert x (sort xs)

  insert-perm : (x : A) (ys : List A) → Perm (insert x ys) (x ∷ ys)
  unfolding insert
  insert-perm x [] = Perm.refl _
  insert-perm x (y ∷ ys) = elim (Bool-cases (is_positive (compare x y))) [
    | inl later ↦
        rw later
          (Perm.trans (Perm.append_left (y ∷ []) (insert-perm x ys)) (perm_middle (y ∷ []) ys))
    | inr here ↦ rw here (Perm.refl _)
  ]

  pub sort-perm : (xs : List A) → Perm (sort xs) xs
  unfolding sort
  sort-perm [] = Perm.refl _
  sort-perm (x ∷ xs) =
      Perm.trans (insert-perm x (sort xs)) (Perm.append_left (x ∷ []) (sort-perm xs))

  length-insert : (x : A) (ys : List A) → length (insert x ys) ≡ suc (length ys)
  unfolding insert
  length-insert x [] = refl
  length-insert x (y ∷ ys) = ground (arith, length-insert x ys)

  pub length-sort : (xs : List A) → length (sort xs) ≡ length xs
  unfolding sort
  length-sort [] = refl
  length-sort (x ∷ xs) = length-insert x (sort xs) ∙ ap suc (length-sort xs)

  -- The comparison puts greater numbers first.
  pub record PutsGreaterFirst (size : A → ℕ) : Type 0 where
    pub swaps : (x y : A) → is_positive (compare x y) ≡ true → size x ≤ size y
    pub keeps : (x y : A) → is_positive (compare x y) ≡ false → size y ≤ size x

  module _ (size : A → ℕ) (first : PutsGreaterFirst size) where
    insert-Below :
        (n : ℕ) (x : A) (ys : List A)
        → size x ≤ n
        → All (λ y. size y ≤ n) ys
        → All (λ y. size y ≤ n) (insert x ys)
    unfolding insert
    insert-Below n x [] h k = (h, tt)
    insert-Below n x (y ∷ ys) h k =
        if-both (All (λ z. size z ≤ n)) (is_positive (compare x y)) (k.0, insert-Below n x ys h k.1)
          (h, (k.0, k.1))

    insert-Descends : (x : A) (ys : List A) → Descends size ys → Descends size (insert x ys)
    unfolding insert
    insert-Descends x [] h = (tt, tt)
    insert-Descends x (y ∷ ys) h = elim (Bool-cases (is_positive (compare x y))) [
      | inl later ↦
          rw later
            (insert-Below (size y) x ys (first.swaps x y later) h.0, insert-Descends x ys h.1)
      | inr here ↦ rw here (
        (
          first.keeps x y here,
          All-map (λ z. size z ≤ size y) (λ z. size z ≤ size x) ys
              (λ z below. ground (arith, below, first.keeps x y here)) h.0,
        ),
        (h.0, h.1),
      )
    ]

    pub sort-Descends : (xs : List A) → Descends size (sort xs)
    unfolding sort
    sort-Descends [] = tt
    sort-Descends (x ∷ xs) = insert-Descends x (sort xs) (sort-Descends xs)

-- A sorted list holds what the list holds.
module _ {A : Type 0} (compare : A → A → Sign) where
  In-insert : (z x : A) (ys : List A) → In z (insert compare x ys) ↔ ((z ≡ x) ⊎ In z ys)
  unfolding insert
  In-insert z x [] = (λ m. m, λ m. m)
  In-insert z x (y ∷ ys) =
      let rest = In-insert z x ys in
      if-both (λ l. In z l ↔ ((z ≡ x) ⊎ ((z ≡ y) ⊎ In z ys))) (is_positive (compare x y))
        (ground (arith, rest)) (λ m. m, λ m. m)

  pub In-sort : (z : A) (xs : List A) → In z (sort compare xs) ↔ In z xs
  unfolding sort
  In-sort z [] = (λ m. m, λ m. m)
  In-sort z (x ∷ xs) =
      let step = In-insert z x (sort compare xs) in
      let rest = In-sort z xs in ground (arith, step, rest)

-- `R x y` says that `x` may stand before `y`.
abbrev pub IsOrdered {κ} : {A : Type 0} → (A → A → Type κ) → List A → Type κ
IsOrdered R [] = Unit
IsOrdered R (x ∷ xs) = All (R x) xs × IsOrdered R xs

-- The comparison decides a transitive order.
pub record Decides {κ} {A : Type 0} (compare : A → A → Sign) (R : A → A → Type κ) : Type κ where
  pub swaps : (x y : A) → is_positive (compare x y) ≡ true → R y x
  pub keeps : (x y : A) → is_positive (compare x y) ≡ false → R x y
  pub trans : (x y z : A) → R x y → R y z → R x z

module _ {κ} {A : Type 0} (compare : A → A → Sign) (R : A → A → Type κ)
    (order : Decides compare R) where
  insert-All : (z x : A) (ys : List A) → R z x → All (R z) ys → All (R z) (insert compare x ys)
  unfolding insert
  insert-All z x [] h k = (h, tt)
  insert-All z x (y ∷ ys) h k =
      if-both (All (R z)) (is_positive (compare x y)) (k.0, insert-All z x ys h k.1) (h, (k.0, k.1))

  insert-IsOrdered : (x : A) (ys : List A) → IsOrdered R ys → IsOrdered R (insert compare x ys)
  unfolding insert
  insert-IsOrdered x [] h = (tt, tt)
  insert-IsOrdered x (y ∷ ys) h = elim (Bool-cases (is_positive (compare x y))) [
    | inl later ↦
        rw later (insert-All y x ys (order.swaps x y later) h.0, insert-IsOrdered x ys h.1)
    | inr here ↦
        let first = order.keeps x y here in
        rw here (
          (first, All-map (R y) (R x) ys (λ z below. order.trans x y z first below) h.0),
          (h.0, h.1),
        )
  ]

  pub sort-IsOrdered : (xs : List A) → IsOrdered R (sort compare xs)
  unfolding sort
  sort-IsOrdered [] = tt
  sort-IsOrdered (x ∷ xs) = insert-IsOrdered x (sort compare xs) (sort-IsOrdered xs)
