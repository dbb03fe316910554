-- ===== src/TokenSavings/Impact.antt =====
-- The order and the numbers of the breakdown.
use mathlib.Core.List.{Perm}
use mcp_project_server.Prelude.{◌≤◌, ◌≡◌, true, false, List, arith}
use mcp_project_server.Js.Sort.{is_positive, sort-perm, IsOrdered, Decides, sort-IsOrdered}
use mcp_project_server.Summaries.{ℤ, pos, negsuc}
use mcp_project_server.TokenSavings.{
  TokenSavingsOperationSummary, by_impact, integer_difference, sort_by_impact,
}

infix 4 ◌≤ℤ◌
abbrev pub ◌≤ℤ◌ : ℤ → ℤ → Type 0
pos m ≤ℤ pos n = m ≤ n
pos m ≤ℤ negsuc n = ⊥
negsuc m ≤ℤ pos n = Unit {0}
negsuc m ≤ℤ negsuc n = n ≤ m

-- The first has saved at least as much as the second.
abbrev pub SavedMore : TokenSavingsOperationSummary → TokenSavingsOperationSummary → Type 0
SavedMore a b = b.saved_tokens_total ≤ℤ a.saved_tokens_total

integer_difference_swaps : (m n : ℤ) → is_positive (integer_difference m n) ≡ true → n ≤ℤ m
unfolding integer_difference
integer_difference_swaps (pos m) (pos n) h = ground arith
integer_difference_swaps (pos m) (negsuc n) h = tt
integer_difference_swaps (negsuc m) (pos n) h = absurd (cc)
integer_difference_swaps (negsuc m) (negsuc n) h = ground arith

integer_difference_keeps : (m n : ℤ) → is_positive (integer_difference m n) ≡ false → m ≤ℤ n
unfolding integer_difference
integer_difference_keeps (pos m) (pos n) h = ground arith
integer_difference_keeps (pos m) (negsuc n) h = absurd (cc)
integer_difference_keeps (negsuc m) (pos n) h = tt
integer_difference_keeps (negsuc m) (negsuc n) h = ground arith

≤ℤ_trans : (l m n : ℤ) → l ≤ℤ m → m ≤ℤ n → l ≤ℤ n
≤ℤ_trans (pos l) (pos m) (pos n) h k = omega arith
≤ℤ_trans (pos l) (pos m) (negsuc n) h k = absurd k
≤ℤ_trans (pos l) (negsuc m) n h k = absurd h
≤ℤ_trans (negsuc l) m (pos n) h k = tt
≤ℤ_trans (negsuc l) (pos m) (negsuc n) h k = absurd k
≤ℤ_trans (negsuc l) (negsuc m) (negsuc n) h k = omega arith

by_impact-Decides : Decides by_impact SavedMore
unfolding by_impact
by_impact-Decides = record {
  swaps = λ x y e. integer_difference_swaps y.saved_tokens_total x.saved_tokens_total e;
  keeps = λ x y e. integer_difference_keeps y.saved_tokens_total x.saved_tokens_total e;
  trans = λ x y z h k. ≤ℤ_trans z.saved_tokens_total y.saved_tokens_total x.saved_tokens_total k h;
}

-- The breakdown lists the operations that it is given, each as often, and none after one that has
-- saved fewer tokens.
pub sort_by_impact-IsOrdered :
    (summaries : List TokenSavingsOperationSummary)
    → Perm (sort_by_impact summaries) summaries × IsOrdered SavedMore (sort_by_impact summaries)
unfolding sort_by_impact
sort_by_impact-IsOrdered summaries =
    (sort-perm by_impact summaries, sort-IsOrdered by_impact SavedMore by_impact-Decides summaries)
