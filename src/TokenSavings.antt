-- ===== src/TokenSavings.antt =====
-- pcs-control-panel-project/artifacts/pcs-control-panel/src/lib/tokenSavings.ts, with what
-- pages/TokenSavings.tsx asks for and shows. Counts are integers that floating-point numbers hold
-- exactly, so that their rounded-down quotient is exact; `rounded_percent s b` stands for
-- `Math.round((s / b) * 100)`, `tenths v d` for `(v / d).toFixed(1)`, and `show` for `String` of a
-- number.
pub mod Impact
mod Tests
use Prim.Native.Nat.{min}
use mcp_project_server.Prelude.{
  ℕ, zero, suc, ◌-◌, ◌/◌, Bool, true, false, Option, none, some, List, [], ◌∷◌, ◌++◌, length, take,
  ltb, if◌then◌else◌, ◌==◌,
}
use mcp_project_server.Js.Str.{Str, codes, ends_with}
use mcp_project_server.Js.Sort.{Sign, sort}
use mcp_project_server.Summaries.{ℤ, pos, negsuc, at_least_zero}

pub data TokenSavingsOperation : Type 0 where
  retrieve_context search_code prepare_task get_project_briefing : TokenSavingsOperation

pub record TokenSavingsOperationSummary : Type 0 where
  pub operation : Option TokenSavingsOperation
  pub call_count : ℤ
  pub actual_tokens_total : ℤ
  pub baseline_tokens_total : ℤ
  pub saved_tokens_total : ℤ

-- `OPERATION_LABEL`
unfoldable pub operation_label : TokenSavingsOperation → Str
operation_label TokenSavingsOperation.retrieve_context = codes "Retrieve context"
operation_label TokenSavingsOperation.search_code = codes "Search code"
operation_label TokenSavingsOperation.prepare_task = codes "Prepare task"
operation_label TokenSavingsOperation.get_project_briefing = codes "Get briefing"

-- `Math.max(0, Math.min(100, percent))`
abbrev pub clamped : ℤ → ℕ
clamped percent = min 100 (at_least_zero percent)

unfoldable pub savings_percent : (ℤ → ℤ → ℤ) → TokenSavingsOperationSummary → ℕ
savings_percent rounded_percent summary = elim (summary.baseline_tokens_total) [
  | pos zero ↦ 0
  | pos (suc n) ↦ clamped (rounded_percent summary.saved_tokens_total (pos (suc n)))
  | negsuc _ ↦ 0
]

-- `Math.floor(total / count)` for a positive count
abbrev pub floor_div : ℤ → ℕ → ℤ
floor_div (pos n) count = pos (n / count)
floor_div (negsuc n) count = negsuc (n / count)

unfoldable pub average_saved_per_call : TokenSavingsOperationSummary → ℤ
average_saved_per_call summary = elim (summary.call_count) [
  | pos zero ↦ pos 0
  | pos (suc n) ↦ floor_div summary.saved_tokens_total (suc n)
  | negsuc _ ↦ pos 0
]

abbrev pub abs : ℤ → ℕ
abs (pos n) = n
abs (negsuc n) = suc n

-- `text.replace(/\.0$/, '')`
unfoldable pub drop_zero : Str → Str
unfolding ends_with
drop_zero text = if ends_with text (codes ".0") then take (length text - 2) text else text

unfoldable pub format_token_count : (ℤ → Str) → (ℤ → ℕ → Str) → ℤ → Str
unfolding drop_zero
format_token_count show tenths value =
    if ltb (abs value) 1000
    then show value
    else if ltb (abs value) 1_000_000
    then drop_zero (tenths value 1000) ++ codes "k"
    else drop_zero (tenths value 1_000_000) ++ codes "M"

-- The sign of `m - n`.
unfoldable pub integer_difference : ℤ → ℤ → Sign
integer_difference (pos m) (pos n) =
    if ltb m n then Sign.negative else if ltb n m then Sign.positive else Sign.nil
integer_difference (pos m) (negsuc n) = Sign.positive
integer_difference (negsuc m) (pos n) = Sign.negative
integer_difference (negsuc m) (negsuc n) =
    if ltb n m then Sign.negative else if ltb m n then Sign.positive else Sign.nil

unfoldable pub by_impact : TokenSavingsOperationSummary → TokenSavingsOperationSummary → Sign
unfolding integer_difference
by_impact a b = integer_difference b.saved_tokens_total a.saved_tokens_total

unfoldable pub sort_by_impact :
    List TokenSavingsOperationSummary → List TokenSavingsOperationSummary
unfolding by_impact sort
sort_by_impact summaries = sort by_impact summaries

-- What the log is asked for: at most 100 entries, of one operation unless the filter is 'all'.
pub record LogQuery : Type 0 where
  pub operation : Option TokenSavingsOperation
  pub limit : ℕ

unfoldable pub log_query : Option TokenSavingsOperation → LogQuery
log_query operation_filter = record { operation = operation_filter; limit = 100 }
