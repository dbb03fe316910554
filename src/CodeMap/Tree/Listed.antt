-- ===== src/CodeMap/Tree/Listed.antt =====
-- Which nodes the tree lists under a directory.
use mcp_project_server.Prelude.{
  suc, ◌≡◌, ◌≢◌, ◌↔◌, refl, sym, ap, ◌∙◌, subst, true, false, [], ◌∷◌, ◌++◌, In, ◌+◌, length, drop,
  filter, filter_sound, filter_complete, arith, append_assoc,
}
use mcp_project_server.Js.Str.{Str, codes, str_eq_iff, starts_with, starts_with_iff}
use mcp_project_server.Js.Map.{values}
use mcp_project_server.Js.Sort.{Sign, In-sort}
use mcp_project_server.CodeMap.Graph.{MergedNode, CodeGraph}
use mcp_project_server.CodeMap.Tree.{filter, has_no_slash, is_child, children, compare_tree}

-- A node that stands one level below a directory: its path is the directory's, a slash and a name
-- without one.
pub record IsChild (parent n : MergedNode) : Type 0 where
  pub name : Str
  pub other : n.id ≢ parent.id
  pub inside : n.outside_scope ≡ false
  pub below : n.path ≡ parent.path ++ (codes "/" ++ name)
  pub one_level : has_no_slash name ≡ true

drop-below : (p name : Str) → drop (length p + 1) (p ++ (codes "/" ++ name)) ≡ name
drop-below [] name = refl
drop-below (c ∷ p) name =
    let count : suc (length p + 1) ≡ suc (length p) + 1 = omega arith in
    subst (λ n. drop n (c ∷ (p ++ (codes "/" ++ name))) ≡ name) count (drop-below p name)

is_child_sound : (parent n : MergedNode) → is_child parent n ≡ true → IsChild parent n
unfolding is_child
is_child_sound parent n h =
    let (name, e) = (starts_with_iff n.path (parent.path ++ codes "/")).0 (ground arith) in
    let path : n.path ≡ parent.path ++ (codes "/" ++ name) =
      e ∙ append_assoc parent.path (codes "/") name in
    let flat : has_no_slash (drop (length parent.path + 1) n.path) ≡ true = ground arith in
    record {
      name = name;
      other = ground (arith, str_eq_iff n.id parent.id);
      inside = ground arith;
      below = path;
      one_level =
          subst (λ s. has_no_slash s ≡ true)
            (ap (drop (length parent.path + 1)) path ∙ drop-below parent.path name) flat;
    }

is_child_complete : (parent n : MergedNode) → IsChild parent n → is_child parent n ≡ true
unfolding is_child
is_child_complete parent n c =
    let other = c.other in
    let inside = c.inside in
    let under : starts_with n.path (parent.path ++ codes "/") ≡ true =
      (starts_with_iff n.path (parent.path ++ codes "/")).1
        (c.name, c.below ∙ sym (append_assoc parent.path (codes "/") c.name)) in
    let flat : has_no_slash (drop (length parent.path + 1) n.path) ≡ true =
      subst (λ s. has_no_slash s ≡ true)
        (sym (ap (drop (length parent.path + 1)) c.below ∙ drop-below parent.path c.name))
        c.one_level in
    ground (arith, str_eq_iff n.id parent.id)

-- The tree lists under a directory exactly the nodes of the graph that are inside the scopes and
-- stand one level below it.
pub children_iff :
    (locale_compare : Str → Str → Sign) (graph : CodeGraph) (parent n : MergedNode)
    → In n (children locale_compare graph parent) ↔ (In n (values graph.nodes) × IsChild parent n)
unfolding children
children_iff locale_compare graph parent n =
    let sorted =
      In-sort (compare_tree locale_compare) n (filter (is_child parent) (values graph.nodes)) in
    (
      λ m.
          let (among, e) = filter_sound (is_child parent) (values graph.nodes) n (sorted.0 m) in
          (among, is_child_sound parent n e),
      λ (among, c). sorted.1 (
          filter_complete (is_child parent) (values graph.nodes) n among
            (is_child_complete parent n c)),
    )
