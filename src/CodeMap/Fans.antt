-- ===== src/CodeMap/Fans.antt =====
-- `recomputeFans` counts the distinct neighbours of each node.
use mcp_project_server.Prelude.{
  ℕ, ◌≡◌, refl, Bool, not, ◌&&◌, ◌||◌, List, [], ◌∷◌, any, foldl, length, arith, Bool-cases, inl,
  inr,
}
use mcp_project_server.Js.Str.{Str, str_eq, str_eq_iff}
use mcp_project_server.Js.Set.{has, add, Distinct, has-add, add-Distinct}
use mcp_project_server.Js.Map.{Map, get, get-put}
use mcp_project_server.Api.Types.{CodeMapEdge}
use mcp_project_server.CodeMap.Graph.{
  MergedNode, Fans, members, add_to, count_edge, count_edges, set_fans,
}

-- `s` has an edge to `id`, and is another node.
abbrev pub leads_to : Str → Str → CodeMapEdge → Bool
leads_to s id e = str_eq e.source s && (str_eq e.target id && not (str_eq e.source e.target))

-- `n` is the number of the strings that pass the test.
pub record CountOf (p : Str → Bool) (n : ℕ) : Type 0 where
  pub all_of : List Str
  pub distinct : Distinct all_of
  pub exact : (s : Str) → has all_of s ≡ p s
  pub size : length all_of ≡ n

-- The fans of a node are the numbers of its distinct in- and out-neighbours.
pub record HasFans (es : List CodeMapEdge) (id : Str) (n : MergedNode) : Type 0 where
  pub fan_in : CountOf (λ s. any (leads_to s id) es) n.fan_in
  pub fan_out : CountOf (λ s. any (leads_to id s) es) n.fan_out

members-add_to :
    (m : Map (List Str)) (k v j s : Str)
    → has (members (get (add_to m k v) j)) s
      ≡ (has (members (get m j)) s || (str_eq v s && str_eq k j))
unfolding add_to
members-add_to m k v j s = ground (
  arith,
  get-put m k j (add (members (get m k)) v),
  has-add (members (get m k)) v s,
  str_eq_iff k j,
)

add_to-Distinct :
    (m : Map (List Str)) (k v j : Str)
    → ((i : Str) → Distinct (members (get m i)))
    → Distinct (members (get (add_to m k v) j))
unfolding add_to
add_to-Distinct m k v j h = ground (
  arith,
  get-put m k j (add (members (get m k)) v),
  add-Distinct (members (get m k)) v (h k),
  h j,
)

-- The sets of both maps have no repetitions.
record AreSets (f : Fans) : Type 0 where
  ins : (id : Str) → Distinct (members (get f.ins id))
  outs : (id : Str) → Distinct (members (get f.outs id))

count_edge-AreSets : (f : Fans) (e : CodeMapEdge) → AreSets f → AreSets (count_edge f e)
unfolding count_edge
count_edge-AreSets f e h = elim (Bool-cases (str_eq e.source e.target)) [
  | inl loop ↦ rw loop h
  | inr edge ↦ rw edge (record {
    ins = λ id. add_to-Distinct f.ins e.target e.source id h.ins;
    outs = λ id. add_to-Distinct f.outs e.source e.target id h.outs;
  })
]

foldl-AreSets : (es : List CodeMapEdge) (f : Fans) → AreSets f → AreSets (foldl count_edge f es)
foldl-AreSets [] f h = h
foldl-AreSets (e ∷ es) f h = foldl-AreSets es (count_edge f e) (count_edge-AreSets f e h)

ins-count_edge :
    (f : Fans) (e : CodeMapEdge) (id s : Str)
    → has (members (get (count_edge f e).ins id)) s
      ≡ (has (members (get f.ins id)) s || leads_to s id e)
unfolding count_edge
ins-count_edge f e id s = ground (arith, members-add_to f.ins e.target e.source id s)

outs-count_edge :
    (f : Fans) (e : CodeMapEdge) (id s : Str)
    → has (members (get (count_edge f e).outs id)) s
      ≡ (has (members (get f.outs id)) s || leads_to id s e)
unfolding count_edge
outs-count_edge f e id s = ground (arith, members-add_to f.outs e.source e.target id s)

ins-foldl :
    (es : List CodeMapEdge) (f : Fans) (id s : Str)
    → has (members (get (foldl count_edge f es).ins id)) s
      ≡ (has (members (get f.ins id)) s || any (leads_to s id) es)
ins-foldl [] f id s = ground arith
ins-foldl (e ∷ es) f id s =
    ground (arith, ins-foldl es (count_edge f e) id s, ins-count_edge f e id s)

outs-foldl :
    (es : List CodeMapEdge) (f : Fans) (id s : Str)
    → has (members (get (foldl count_edge f es).outs id)) s
      ≡ (has (members (get f.outs id)) s || any (leads_to id s) es)
outs-foldl [] f id s = ground arith
outs-foldl (e ∷ es) f id s =
    ground (arith, outs-foldl es (count_edge f e) id s, outs-count_edge f e id s)

abbrev none_yet : Fans
none_yet = record { ins = []; outs = [] }

count_edges-AreSets : (es : List CodeMapEdge) → AreSets (count_edges es)
unfolding count_edges
count_edges-AreSets es =
    foldl-AreSets es none_yet (unfold get in record { ins = λ id. tt; outs = λ id. tt })

-- The fans that are set are the numbers of distinct neighbours, whatever they were before.
pub set_fans-HasFans :
    (es : List CodeMapEdge) (id : Str) (n : MergedNode)
    → HasFans es id (set_fans (count_edges es) id n)
unfolding set_fans
set_fans-HasFans es id n = record {
  fan_in = record {
    all_of = members (get (count_edges es).ins id);
    distinct = (count_edges-AreSets es).ins id;
    exact = λ s. (unfold count_edges get has in ins-foldl es none_yet id s);
    size = refl;
  };
  fan_out = record {
    all_of = members (get (count_edges es).outs id);
    distinct = (count_edges-AreSets es).outs id;
    exact = λ s. (unfold count_edges get has in outs-foldl es none_yet id s);
    size = refl;
  };
}
