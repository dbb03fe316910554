-- ===== src/Compliance/Labels.antt =====
-- web/src/components/RequirementCompliance.tsx: what a row of the compliance review is labelled.
use mcp_project_server.Prelude.{
  ◌≡◌, ◌↔◌, Bool, true, false, not, ◌||◌, Option, none, some, List, [], ◌∷◌, ◌++◌, filter, length,
  ltb, if◌then◌else◌, arith,
}
use mcp_project_server.Js.Str.{Str, codes, str_eq}
use mcp_project_server.Api.Compliance.{
  RequirementComplianceRow, RequirementComplianceException, ExceptionKind, ValidationState,
  IndependentReviewState,
}

pub data BadgeTone : Type 0 where
  growth ember graphite : BadgeTone

unfoldable same_kind : ExceptionKind → ExceptionKind → Bool
same_kind ExceptionKind.missing ExceptionKind.missing = true
same_kind ExceptionKind.stale ExceptionKind.stale = true
same_kind ExceptionKind.blocking ExceptionKind.blocking = true
same_kind ExceptionKind.review_missing ExceptionKind.review_missing = true
same_kind ExceptionKind.review_failed ExceptionKind.review_failed = true
same_kind ExceptionKind.review_stale ExceptionKind.review_stale = true
same_kind _ _ = false

unfoldable pub exceptions_of :
    RequirementComplianceRow → ExceptionKind → List RequirementComplianceException
unfolding same_kind
exceptions_of row kind = filter (λ e. same_kind e.kind kind) row.exceptions

abbrev has_any : RequirementComplianceRow → ExceptionKind → Bool
has_any row kind = ltb 0 (length (exceptions_of row kind))

abbrev pub is_stale : ValidationState → Bool
is_stale ValidationState.stale = true
is_stale _ = false

unfoldable pub validation_label : RequirementComplianceRow → Str
unfolding exceptions_of
validation_label row =
    if not row.configured
    then codes "Not configured"
    else if has_any row ExceptionKind.stale || is_stale row.validation
    then codes "Stale"
    else if has_any row ExceptionKind.missing
    then codes "Missing"
    else codes "Current"

unfoldable pub validation_tone : RequirementComplianceRow → BadgeTone
unfolding validation_label str_eq
validation_tone row =
    let label = validation_label row in
    if str_eq label (codes "Current")
    then growth
    else if str_eq label (codes "Not configured")
    then graphite
    else ember

abbrev review_word : IndependentReviewState → Str
review_word IndependentReviewState.passed = codes "Passed"
review_word IndependentReviewState.failed = codes "Failed"
review_word IndependentReviewState.not_configured = codes "Not configured"

unfoldable pub review_label : RequirementComplianceRow → Str
review_label row = if row.configured then review_word row.review else codes "Not configured"

unfoldable pub exception_label : RequirementComplianceException → Str
exception_label e = elim e.criterion_key [ none ↦ e.invariant_key | some key ↦ key ]

abbrev given_texts : List (Option Str) → List Str
given_texts [] = []
given_texts (none ∷ values) = given_texts values
given_texts (some v ∷ values) =
    let rest = given_texts values in if str_eq v [] then rest else v ∷ rest

abbrev wrap : List Str → List (Option Str)
wrap [] = []
wrap (s ∷ rest) = some s ∷ wrap rest

abbrev joined : List Str → Str
joined [] = []
joined (s ∷ []) = s
joined (s ∷ t ∷ rest) = s ++ (codes " · " ++ joined (t ∷ rest))

unfoldable pub exception_metadata : RequirementComplianceException → Str
unfolding str_eq
exception_metadata e =
    joined (given_texts (e.criterion_id ∷ e.violation_id ∷ some e.invariant_id ∷ wrap e.file_refs))

-- A row is shown in the colour of growth exactly if it is configured, its validation is not stale,
-- and it has no exception for something stale or missing.
pub validation_tone_iff :
    (row : RequirementComplianceRow)
    → (validation_tone row ≡ growth) ↔ (
        (row.configured ≡ true)
        × (is_stale row.validation ≡ false)
        × (exceptions_of row ExceptionKind.stale ≡ [])
        × (exceptions_of row ExceptionKind.missing ≡ []))
unfolding validation_tone validation_label
validation_tone_iff row = ground arith
