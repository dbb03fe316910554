-- ===== src/TokenSavings/Tests.antt =====
-- Three operations.
use mathlib.Core.List.{Perm}
use mcp_project_server.Js.Sort.{IsOrdered}
use mcp_project_server.TokenSavings.Impact.{SavedMore, sort_by_impact-IsOrdered}
use mcp_project_server.Prelude.{◌≡◌, refl, none, List, [], ◌∷◌}
use mcp_project_server.Js.Str.{codes}
use mcp_project_server.Summaries.{ℤ, pos, negsuc}
use mcp_project_server.TokenSavings.{
  TokenSavingsOperationSummary, savings_percent, average_saved_per_call, format_token_count,
  sort_by_impact,
}

abbrev summary : ℤ → TokenSavingsOperationSummary
summary saved = record {
  operation = none;
  call_count = pos 3;
  actual_tokens_total = pos 0;
  baseline_tokens_total = pos 10;
  saved_tokens_total = saved;
}

abbrev summaries : List TokenSavingsOperationSummary
summaries = summary (pos 2) ∷ summary (negsuc 4) ∷ summary (pos 9) ∷ []

ordered : sort_by_impact summaries ≡ summary (pos 9) ∷ summary (pos 2) ∷ summary (negsuc 4) ∷ []
unfolding sort_by_impact
ordered = refl

sort_by_impact-IsOrdered_example :
    Perm (sort_by_impact summaries) summaries × IsOrdered SavedMore (sort_by_impact summaries)
sort_by_impact-IsOrdered_example = sort_by_impact-IsOrdered summaries

floored : average_saved_per_call (summary (negsuc 9)) ≡ negsuc 3
unfolding average_saved_per_call
floored = refl

clamped_percent : savings_percent (λ s b. pos 500) (summary (pos 50)) ≡ 100
unfolding savings_percent
clamped_percent = refl

-- Rounding to tenths can reach a thousand of the unit.
thousand_k : format_token_count (λ v. []) (λ v d. codes "1000.0") (pos 999_999) ≡ codes "1000k"
unfolding format_token_count
thousand_k = refl
