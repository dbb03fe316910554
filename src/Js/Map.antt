-- ===== src/Js/Map.antt =====
-- A JavaScript `Map` with string keys: its entries in the order of insertion, which writes to a
-- present key keep.
use mathlib.Core.Option
use mcp_project_server.Prelude.{
  true, suc, ◌+◌, ◌≤◌, length, ◌≡◌, ◌≢◌, refl, Option, none, some, List, [], ◌∷◌, foldl, All, In,
  arith, if◌then◌else◌, Bool-cases, inl, inr, subst₂,
}
use mcp_project_server.Js.Str.{Str, str_eq, str_eq_iff}
use mcp_project_server.Js.Set.{has}

abbrev pub Map {ℓ} : Type ℓ → Type ℓ
Map V = List (Str × V)

module _ {ℓ} {V : Type ℓ} where
  unfoldable pub get : Map V → Str → Option V
  get [] k = none
  get ((j, v) ∷ m) k = if str_eq j k then some v else get m k

  unfoldable pub put : Map V → Str → V → Map V
  put [] k v = (k, v) ∷ []
  put ((j, w) ∷ m) k v = if str_eq j k then (k, v) ∷ m else (j, w) ∷ put m k v

  unfoldable pub delete : Map V → Str → Map V
  delete [] k = []
  delete ((j, v) ∷ m) k = let rest = delete m k in if str_eq j k then rest else (j, v) ∷ rest

  unfoldable pub values : Map V → List V
  values [] = []
  values ((_, v) ∷ m) = v ∷ values m

  -- `for (const [key, value] of map) map.set(key, f(key, value))`
  unfoldable pub update_all : (Str → V → V) → Map V → Map V
  update_all f [] = []
  update_all f ((k, v) ∷ m) = (k, f k v) ∷ update_all f m

  -- `new Map(entries)`
  unfoldable pub from_entries : List (Str × V) → Map V
  unfolding put
  from_entries = foldl (λ m e. put m e.0 e.1) []

  abbrev pub HasDistinctKeys : Map V → Type ℓ
  HasDistinctKeys [] = Unit
  HasDistinctKeys ((k, _) ∷ m) = (get m k ≡ none) × HasDistinctKeys m

  pub get-put :
      (m : Map V) (k j : Str) (v : V) → get (put m k v) j ≡ (if str_eq k j then some v else get m j)
  unfolding get put
  get-put [] k j v = refl
  get-put ((i, w) ∷ m) k j v =
      ground (arith, get-put m k j v, str_eq_iff i k, str_eq_iff i j, str_eq_iff k j)

  pub get-delete :
      (m : Map V) (k j : Str) → get (delete m k) j ≡ (if str_eq k j then none else get m j)
  unfolding get delete
  get-delete [] k j = ground arith
  get-delete ((i, w) ∷ m) k j =
      ground (arith, get-delete m k j, str_eq_iff i k, str_eq_iff i j, str_eq_iff k j)

  pub get-update_all :
      (f : Str → V → V) (m : Map V) (k : Str) → get (update_all f m) k ≡ Option.map (f k) (get m k)
  unfolding get update_all
  get-update_all f [] k = refl
  get-update_all f ((j, v) ∷ m) k = ground (arith, get-update_all f m k, str_eq_iff j k)

  pub put-HasDistinctKeys :
      (m : Map V) (k : Str) (v : V) → HasDistinctKeys m → HasDistinctKeys (put m k v)
  unfolding get put
  put-HasDistinctKeys [] k v h = (refl, tt)
  put-HasDistinctKeys ((j, w) ∷ m) k v h =
      ground (arith, put-HasDistinctKeys m k v, get-put m k j v, str_eq_iff j k, str_eq_iff k j)

  pub delete-HasDistinctKeys :
      (m : Map V) (k : Str) → HasDistinctKeys m → HasDistinctKeys (delete m k)
  unfolding get delete
  delete-HasDistinctKeys [] k h = tt
  delete-HasDistinctKeys ((j, w) ∷ m) k h =
      ground (arith, delete-HasDistinctKeys m k, get-delete m k j)

  pub update_all-HasDistinctKeys :
      (f : Str → V → V) (m : Map V) → HasDistinctKeys m → HasDistinctKeys (update_all f m)
  unfolding get update_all
  update_all-HasDistinctKeys f [] h = tt
  update_all-HasDistinctKeys f ((j, w) ∷ m) h =
      ground (arith, update_all-HasDistinctKeys f m, get-update_all f m j)

module _ {ℓ κ} {V : Type ℓ} (P : Str → V → Type κ) where
  -- A property of every entry.
  abbrev pub Each : Map V → Type κ
  Each [] = Unit
  Each ((k, v) ∷ m) = P k v × Each m

  pub put-Each : (m : Map V) (k : Str) (v : V) → P k v → Each m → Each (put m k v)
  unfolding put
  put-Each [] k v p h = (p, tt)
  put-Each ((j, w) ∷ m) k v p h = ground (arith, put-Each m k v p)

  pub delete-Each : (m : Map V) (k : Str) → Each m → Each (delete m k)
  unfolding delete
  delete-Each [] k h = tt
  delete-Each ((j, w) ∷ m) k h = ground (arith, delete-Each m k)

  pub Each-get : (m : Map V) (k : Str) (v : V) → Each m → get m k ≡ some v → P k v
  unfolding get
  Each-get [] k v h e = absurd (cc)
  Each-get ((j, w) ∷ m) k v h e = elim (Bool-cases (str_eq j k)) [
    | inl same ↦
        let key : j ≡ k = (str_eq_iff j k).0 same in
        let val : w ≡ v = ground arith in subst₂ P key val h.0
    | inr other ↦ Each-get m k v h.1 (ground arith)
  ]

module _ {ℓ κ μ} {V : Type ℓ} (P : Str → V → Type κ) (Q : Str → V → Type μ) where
  -- The new values may have another property than the old ones.
  pub update_all-Each :
      (f : Str → V → V) (m : Map V)
      → ((k : Str) (v : V) → P k v → Q k (f k v))
      → Each P m
      → Each Q (update_all f m)
  unfolding update_all
  update_all-Each f [] s h = tt
  update_all-Each f ((j, w) ∷ m) s h = (s j w h.0, update_all-Each f m s h.1)

module _ {ℓ κ μ} {V : Type ℓ} (P : Str → V → Type κ) (Q : Str → V → Type μ) where
  pub Each-map : (m : Map V) → ((k : Str) (v : V) → P k v → Q k v) → Each P m → Each Q m
  Each-map [] f h = tt
  Each-map ((k, v) ∷ m) f h = (f k v h.0, Each-map m f h.1)

module _ {V : Type 0} (P : Str → V → Type 0) where
  -- A property of every entry that does not speak of the key holds of every value.
  pub Each-values :
      (Q : V → Type 0) (m : Map V) → ((k : Str) (v : V) → P k v → Q v) → Each P m → All Q (values m)
  unfolding values
  Each-values Q [] to h = tt
  Each-values Q ((k, v) ∷ m) to h = (to k v h.0, Each-values Q m to h.1)

pub get-In : {V : Type 0} (m : Map V) (k : Str) (v : V) → get m k ≡ some v → In v (values m)
unfolding get values
get-In [] k v e = absurd (cc)
get-In ((j, w) ∷ m) k v e = elim (Bool-cases (str_eq j k)) [
  | inl same ↦ inl (ground arith)
  | inr other ↦ inr (get-In m k v (ground arith))
]

pub Each-any {ℓ} : {V : Type ℓ} (m : Map V) → Each (λ k v. Unit {0}) m
Each-any [] = tt
Each-any ((k, v) ∷ m) = (tt, Each-any m)

module _ {ℓ κ} {V : Type ℓ} (P : Str → V → Type κ) where
  pub delete-Each_ne : (m : Map V) (k : Str) → Each P m → Each (λ j v. (j ≢ k) × P j v) (delete m k)
  unfolding delete
  delete-Each_ne [] k h = tt
  delete-Each_ne ((j, w) ∷ m) k h = elim (Bool-cases (str_eq j k)) [
    | inl same ↦ rw same (delete-Each_ne m k h.1)
    | inr other ↦ rw other ((ground (arith, str_eq_iff j k), h.0), delete-Each_ne m k h.1)
  ]

module _ {ℓ} {V : Type ℓ} where
  unfoldable pub keys : Map V → List Str
  keys [] = []
  keys ((k, _) ∷ m) = k ∷ keys m

  pub has-keys : (m : Map V) (k : Str) (v : V) → get m k ≡ some v → has (keys m) k ≡ true
  unfolding keys get has
  has-keys [] k v e = absurd (cc)
  has-keys ((j, w) ∷ m) k v e = ground (arith, has-keys m k v)

  length-keys-put :
      (m : Map V) (k : Str) (v : V) → length (keys (put m k v)) ≤ suc (length (keys m))
  unfolding keys put
  length-keys-put [] k v = omega arith
  length-keys-put ((j, w) ∷ m) k v = ground (arith, length-keys-put m k v)

  length-keys-foldl :
      (es : List (Str × V)) (m : Map V)
      → length (keys (foldl (λ m e. put m e.0 e.1) m es)) ≤ length es + length (keys m)
  length-keys-foldl [] m = omega arith
  length-keys-foldl ((k, v) ∷ es) m =
      omega (arith, length-keys-foldl es (put m k v), length-keys-put m k v)

  pub length-keys-from_entries : (es : List (Str × V)) → length (keys (from_entries es)) ≤ length es
  unfolding from_entries keys
  length-keys-from_entries es = omega (arith, length-keys-foldl es [])
