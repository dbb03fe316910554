-- ===== src/CodeMap/Doc/Areas.antt =====
-- The areas of the document, and their children.
use mathlib.Core.List.{Perm}
use mathlib.Core.List.Perm
use mathlib.Core.Option
use mcp_project_server.Prelude.{
  ap, zero, suc, ℕ, ◌+◌, ◌-◌, ◌≤◌, ◌≡◌, refl, Bool, not, ◌&&◌, Option, List, [], ◌∷◌, ◌++◌, map,
  foldl, filter, length, take, All, arith, append-nil, append_assoc, Bool-cases, inl, inr, sym, ◌∙◌,
  subst, if◌then◌else◌,
}
use mcp_project_server.Js.Str.{Str, str_eq, str_eq_iff, split}
use mcp_project_server.Js.Map.{Map, get, get-put}
use mcp_project_server.Js.Sort.{
  Sign, difference, PutsGreaterFirst, Descends, sort, sort-perm, sort-Descends,
}
use mcp_project_server.Api.Types.{CodeMap, CodeMapNode}
use mcp_project_server.CodeMap.Locate.{first_or}
use mcp_project_server.CodeMap.Doc.{
  DocArea, DocChild, doc_area, doc_child, areas_of, add_child, compare_nodes, compare_children,
  or_nil, max_children,
}

-- A node below an area: the area is its first segment, and not all of its path.
abbrev pub is_below : Str → CodeMapNode → Bool
is_below area n =
    let seg = first_or n.path (split b'/' n.path) in not (str_eq n.path seg) && str_eq seg area

-- The nodes below an area as its children, in the order of the map.
abbrev pub below : Str → List CodeMapNode → List DocChild
below area ns = map (doc_child area) (filter (is_below area) ns)

-- The children that an area lists and counts: they are the nodes below it, each as often as it
-- stands in the map, with the greatest numbers of files first; the first six are listed, and the
-- others are counted.
pub record IsCut (nodes : List CodeMapNode) (a : DocArea) : Type 0 where
  pub kids : List DocChild
  pub all : Perm kids (below a.path nodes)
  pub descends : Descends (λ k. k.file_count) kids
  pub listed : a.children ≡ take 6 kids
  pub counted : length a.children + a.more_children ≡ length kids

get-add_child :
    (m : Map (List DocChild)) (n : CodeMapNode) (area : Str)
    → or_nil (get (add_child m n) area) ≡ (
        if is_below area n
        then or_nil (get m area) ++ doc_child area n ∷ []
        else or_nil (get m area))
unfolding add_child
get-add_child m n area =
    let seg = first_or n.path (split b'/' n.path) in
    elim (Bool-cases (str_eq n.path seg)) [
      | inl whole ↦ rw whole refl
      | inr part ↦ rw part (
          rw (get-put m seg area (or_nil (get m seg) ++ doc_child seg n ∷ []))
            (elim (Bool-cases (str_eq seg area)) [
              | inr other ↦ rw other refl
              | inl same ↦ rw same (
                  ap (λ (k : Str). or_nil (get m k) ++ doc_child k n ∷ [])
                    ((str_eq_iff seg area).0 same))
            ]))
    ]

-- Every node below an area is among its children, and nothing else is.
get-children :
    (ns : List CodeMapNode) (m : Map (List DocChild)) (area : Str)
    → or_nil (get (foldl add_child m ns) area) ≡ or_nil (get m area) ++ below area ns
get-children [] m area = sym (append-nil _)
get-children (n ∷ ns) m area =
    get-children ns (add_child m n) area
    ∙ rw (get-add_child m n area) (elim (Bool-cases (is_below area n)) [
      | inr out ↦ rw out refl
      | inl kept ↦ rw kept (append_assoc (or_nil (get m area)) (doc_child area n ∷ []) _)
    ])

length-take : {A : Type 0} (k : ℕ) (xs : List A) → length (take k xs) + (length xs - k) ≡ length xs
length-take zero xs = ground arith
length-take (suc k) [] = ground arith
length-take (suc k) (x ∷ xs) = ground (arith, length-take k xs)

All-of_map :
    {A B : Type 0} (P : B → Type 0) (f : A → B) (xs : List A)
    → ((a : A) → P (f a))
    → All P (map f xs)
All-of_map P f [] h = tt
All-of_map P f (x ∷ xs) h = (h x, All-of_map P f xs h)

nothing_yet : (area : Str) → or_nil (get {V = List DocChild} [] area) ≡ []
unfolding get
nothing_yet area = refl

module _ (show : ℕ → Str) (locale_compare : Str → Str → Sign) where
  compare_nodes-PutsGreaterFirst :
      PutsGreaterFirst (compare_nodes show locale_compare) (λ n. n.file_count)
  unfolding compare_nodes difference
  compare_nodes-PutsGreaterFirst = record {
    swaps = λ x y h. ground (arith, h);
    keeps = λ x y h. ground (arith, h);
  }

  compare_children-PutsGreaterFirst :
      PutsGreaterFirst (compare_children show locale_compare) (λ k. k.file_count)
  unfolding compare_children difference
  compare_children-PutsGreaterFirst = record {
    swaps = λ x y h. ground (arith, h);
    keeps = λ x y h. ground (arith, h);
  }

  module _ (children_by_area : Map (List DocChild)) (depends_on : Map (List Str)) where
    area_of : CodeMapNode → DocArea
    area_of n = doc_area show locale_compare children_by_area depends_on n

    paths-doc_area :
        (ns : List CodeMapNode) → map (λ a. a.path) (map area_of ns) ≡ map (λ n. n.path) ns
    unfolding doc_area area_of
    paths-doc_area [] = refl
    paths-doc_area (n ∷ ns) = ap (λ (ps : List Str). n.path ∷ ps) (paths-doc_area ns)

    below-doc_area :
        (k : ℕ) (ns : List CodeMapNode)
        → All (λ n. n.file_count ≤ k) ns
        → All (λ a. a.file_count ≤ k) (map area_of ns)
    unfolding doc_area area_of
    below-doc_area k [] h = tt
    below-doc_area k (n ∷ ns) h = (h.0, below-doc_area k ns h.1)

    Descends-doc_area :
        (ns : List CodeMapNode)
        → Descends (λ n. n.file_count) ns
        → Descends (λ a. a.file_count) (map area_of ns)
    unfolding doc_area area_of
    Descends-doc_area [] h = tt
    Descends-doc_area (n ∷ ns) h = (below-doc_area n.file_count ns h.0, Descends-doc_area ns h.1)

  -- The areas are the nodes of the top tier, each as often as it stands there, and an area has
  -- never fewer files than a later one.
  pub areas_of-perm :
      (top : CodeMap) (detail : Option CodeMap)
      → Perm
          (map (λ a. a.path) (areas_of show locale_compare top detail))
          (map (λ n. n.path) top.nodes)
        × Descends (λ a. a.file_count) (areas_of show locale_compare top detail)
  unfolding areas_of area_of
  areas_of-perm top detail = (
    rw (paths-doc_area _ _ _)
        (Perm.map (λ n. n.path) (sort-perm (compare_nodes show locale_compare) top.nodes)),
    Descends-doc_area _ _ _
        (sort-Descends _ (λ n. n.file_count) compare_nodes-PutsGreaterFirst top.nodes),
  )

  -- No child is lost: every area lists the first six of the nodes of the deeper map below it, each
  -- as often as it stands there and with the greatest numbers of files first, and counts the
  -- others.
  pub areas_of-children :
      (top : CodeMap) (detail : Option CodeMap)
      → All
          (IsCut (or_nil (Option.map (λ d. d.nodes) detail)))
          (areas_of show locale_compare top detail)
  unfolding areas_of doc_area
  areas_of-children top detail = All-of_map _ _ _ (λ n.
      let nodes = or_nil (Option.map (λ d. d.nodes) detail) in
      let compare = compare_children show locale_compare in
      let found = or_nil (get (foldl add_child [] nodes) n.path) in
      record {
        kids = sort compare found;
        all =
            subst (λ (ks : List DocChild). Perm (sort compare found) ks)
              (get-children nodes [] n.path ∙ rw (nothing_yet n.path) refl)
              (sort-perm compare found);
        descends =
            sort-Descends compare (λ k. k.file_count) compare_children-PutsGreaterFirst found;
        listed = refl;
        counted = length-take max_children (sort compare found);
      })
