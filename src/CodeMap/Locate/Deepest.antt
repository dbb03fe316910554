-- ===== src/CodeMap/Locate/Deepest.antt =====
-- The loop over the nodes finds a deepest ancestor, if there is an ancestor at all.
use mcp_project_server.Prelude.{
  ◌≤◌, ◌≡◌, ◌≢◌, sym, subst, ◌⊎◌, inl, inr, true, Option, none, some, List, [], ◌∷◌, foldl, length,
  All, In, arith,
}
use mcp_project_server.Js.Str.{Str}
use mcp_project_server.CodeMap.Graph.{MergedNode}
use mcp_project_server.CodeMap.Locate.{is_ancestor_path, deeper, deepest}

abbrev AtLeast : MergedNode → Option MergedNode → Type 0
AtLeast m none = ⊥
AtLeast m (some n) = length m.path ≤ length n.path

abbrev Covers : Option MergedNode → Option MergedNode → Type 0
Covers none o = Unit
Covers (some b) o = AtLeast b o

-- A node on or above the path, of the greatest length among these.
pub record IsDeepest (path : Str) (nodes : List MergedNode) (n : MergedNode) : Type 0 where
  pub among : In n nodes
  pub above : is_ancestor_path n.path path ≡ true
  pub longest : All (λ m. is_ancestor_path m.path path ≡ true → length m.path ≤ length n.path) nodes

module _ (path : Str) where
  -- After one round: the new best is the old one, or this ancestor.
  deeper_sound :
      (best : Option MergedNode) (x n : MergedNode)
      → deeper path best x ≡ some n
      → (best ≡ some n) ⊎ ((n ≡ x) × (is_ancestor_path x.path path ≡ true))
  unfolding deeper
  deeper_sound best x n e = ground arith

  deeper-Covers :
      (best : Option MergedNode) (x : MergedNode)
      → Covers best (deeper path best x)
        × (is_ancestor_path x.path path ≡ true → AtLeast x (deeper path best x))
  unfolding deeper
  deeper-Covers none x = ground arith
  deeper-Covers (some b) x = ground arith

  AtLeast-Covers :
      (m : MergedNode) (o p : Option MergedNode) → AtLeast m o → Covers o p → AtLeast m p
  AtLeast-Covers m none p h k = absurd h
  AtLeast-Covers m (some n) none h k = absurd k
  AtLeast-Covers m (some n) (some q) h k = omega arith

  Covers-trans : (a b c : Option MergedNode) → Covers a b → Covers b c → Covers a c
  Covers-trans none b c h k = tt
  Covers-trans (some m) b c h k = AtLeast-Covers m b c h k

  foldl-deeper_sound :
      (nodes : List MergedNode) (best : Option MergedNode) (n : MergedNode)
      → foldl (deeper path) best nodes ≡ some n
      → (best ≡ some n) ⊎ (In n nodes × (is_ancestor_path n.path path ≡ true))
  foldl-deeper_sound [] best n e = inl e
  foldl-deeper_sound (x ∷ xs) best n e = elim (foldl-deeper_sound xs (deeper path best x) n e) [
    | inr (m, above) ↦ inr (inr m, above)
    | inl new ↦ elim (deeper_sound best x n new) [
      | inl old ↦ inl old
      | inr (same, above) ↦ inr (
        inl same,
        subst (λ (y : MergedNode). is_ancestor_path y.path path ≡ true) (sym same) above,
      )
    ]
  ]

  foldl-deeper-Covers :
      (nodes : List MergedNode) (best : Option MergedNode)
      → Covers best (foldl (deeper path) best nodes)
  foldl-deeper-Covers [] none = tt
  foldl-deeper-Covers [] (some b) = omega arith
  foldl-deeper-Covers (x ∷ xs) best =
      Covers-trans best (deeper path best x) _ (deeper-Covers best x).0
        (foldl-deeper-Covers xs (deeper path best x))

  foldl-deeper_longest :
      (nodes : List MergedNode) (best : Option MergedNode)
      → All
          (λ m. is_ancestor_path m.path path ≡ true → AtLeast m (foldl (deeper path) best nodes))
          nodes
  foldl-deeper_longest [] best = tt
  foldl-deeper_longest (x ∷ xs) best = (
    λ above.
        AtLeast-Covers x (deeper path best x) _ ((deeper-Covers best x).1 above)
          (foldl-deeper-Covers xs (deeper path best x)),
    foldl-deeper_longest xs (deeper path best x),
  )

  pub deepest_sound :
      (nodes : List MergedNode) (n : MergedNode)
      → deepest path nodes ≡ some n
      → IsDeepest path nodes n
  unfolding deepest
  deepest_sound nodes n e = elim (foldl-deeper_sound nodes none n e) [
    | inl no_node ↦ absurd (cc)
    | inr (among, above) ↦ record {
      among = among;
      above = above;
      longest =
          subst
            (λ (o : Option MergedNode).
              All (λ m. is_ancestor_path m.path path ≡ true → AtLeast m o) nodes)
            e (foldl-deeper_longest nodes none);
    }
  ]

  -- Without a result no node is on or above the path.
  pub deepest-none :
      (nodes : List MergedNode)
      → deepest path nodes ≡ none
      → All (λ m. is_ancestor_path m.path path ≢ true) nodes
  unfolding deepest
  deepest-none nodes e =
      subst
        (λ (o : Option MergedNode).
          All (λ m. is_ancestor_path m.path path ≡ true → AtLeast m o) nodes)
        e (foldl-deeper_longest nodes none)
