-- ===== src/WebForms/Handed.antt =====
-- What the forms of the web interface hand on.
use mcp_project_server.Prelude.{
  ◌≡◌, ◌≢◌, ◌⊎◌, inl, inr, Bool-cases, refl, Bool, true, false, not, ◌||◌, Option, none, some,
  arith, if-cases, if◌then◌else◌,
}
use mcp_project_server.Js.Str.{Str, str_eq_iff, trim}
use mcp_project_server.Js.Trim.{IsTrimmed, trim-IsTrimmed}
use mcp_project_server.Api.Types.{RequirementStatus}
use mcp_project_server.Api.Projects.{EntryInput}
use mcp_project_server.PlanForms.{is_blank}
use mcp_project_server.PlanForms.Sent.{IsGiven, trim-IsGiven}
use mcp_project_server.WebForms.{
  EntryForm, can_submit, submit_entry, is_dirty, submit_focus, RequirementForm, submit_requirement,
}

-- An optional text that is given where it is wanted, and absent where it is not.
unfoldable pub IsWanted : Bool → Option Str → Type 0
IsWanted true (some text) = IsGiven text
IsWanted true none = ⊥
IsWanted false text = text ≡ none

-- What an entry's form hands on, if it does.
unfoldable pub IsEntry : (with_headline pending : Bool) → Option EntryInput → Type 0
IsEntry with_headline pending none = Unit {0}
IsEntry with_headline pending (some input) =
    (pending ≡ false) × IsWanted with_headline input.headline × IsWanted true input.detail

unfoldable pub IsRequirement : Bool → Option (Str × RequirementStatus) → Type 0
IsRequirement pending none = Unit {0}
IsRequirement pending (some (title, status)) = (pending ≡ false) × IsGiven title

entry_headline :
    (with_headline : Bool) (form : EntryForm)
    → can_submit with_headline form ≡ true
    → IsWanted with_headline (if with_headline then some (trim form.headline) else none)
unfolding can_submit IsWanted
entry_headline true form h = trim-IsGiven form.headline (ground arith)
entry_headline false form h = refl

entry_detail :
    (with_headline : Bool) (form : EntryForm)
    → can_submit with_headline form ≡ true
    → IsGiven (trim form.detail)
unfolding can_submit
entry_detail with_headline form h = trim-IsGiven form.detail (ground arith)

-- The form of an entry hands on nothing while a call is pending; otherwise, if it does, a detail,
-- and a headline exactly where it asks for one, which are not empty and stand without blanks at
-- their ends; the form of a requirement likewise its title.
pub submissions-IsEntry :
    (with_headline pending : Bool) (entry : EntryForm) (requirement : RequirementForm)
    → IsEntry with_headline pending (submit_entry with_headline pending entry)
      × IsRequirement pending (submit_requirement pending requirement)
unfolding submit_entry submit_requirement IsEntry IsRequirement IsWanted
submissions-IsEntry with_headline pending entry requirement = (
  if-cases (IsEntry with_headline pending) (not (can_submit with_headline entry) || pending)
      (λ _. tt)
      (λ ready. (
        ground arith,
        entry_headline with_headline entry (ground arith),
        entry_detail with_headline entry (ground arith),
      )),
  if-cases (IsRequirement pending) (is_blank requirement.title || pending) (λ _. tt)
      (λ ready. (ground arith, trim-IsGiven requirement.title (ground arith))),
)

-- What a submission of the focus hands on, on both branches.
unfoldable pub IsFocus : (pending : Bool) (draft text : Str) → Option Str → Type 0
IsFocus pending draft text none = (pending ≡ true) ⊎ (trim draft ≡ trim text)
IsFocus pending draft text (some sent) =
    (pending ≡ false) × IsTrimmed sent × (sent ≡ trim draft) × (sent ≢ trim text)

-- A submission of the focus hands on the draft without the blanks at its ends, if no call is
-- pending and it differs from the current focus by more than such blanks; otherwise nothing.
pub submit_focus-IsFocus :
    (pending : Bool) (draft text : Str)
    → IsFocus pending draft text (submit_focus pending draft text)
unfolding submit_focus IsFocus is_dirty
submit_focus-IsFocus pending draft text =
    if-cases (IsFocus pending draft text) (not (is_dirty draft text) || pending)
      (λ kept. elim (Bool-cases pending) [
        | inl busy ↦ inl busy
        | inr idle ↦ inr ((str_eq_iff (trim draft) (trim text)).0 (ground arith))
      ])
      (λ ready. (
        ground arith,
        trim-IsTrimmed draft,
        refl,
        λ e. absurd (ground (arith, str_eq_iff (trim draft) (trim text))),
      ))
