-- ===== src/PlanDialogs/Claimed.antt =====
-- What the dialog of a claim sends.
use mathlib.Core.Option
use mcp_project_server.Prelude.{
  ◌≡◌, ◌≢◌, refl, true, false, Option, none, some, arith, if-cases, sym, subst, inl, inr,
  Option-cases, not, ◌||◌,
}
use mcp_project_server.Js.Str.{Str, trim}
use mcp_project_server.Js.Number.{Numbers}
use mcp_project_server.Api.Plans.{ClaimTaskInput}
use mcp_project_server.Claims.{Panel, submit_claim}
use mcp_project_server.PlanForms.{is_blank}
use mcp_project_server.PlanForms.Sent.{IsGiven, trim-IsGiven}
use mcp_project_server.PlanDialogs.{ClaimDialog, submit, claim_of, claim_task}

submit_claim_target :
    (panel : Panel) (task_id : Str)
    → panel.claim_target ≡ some task_id
    → submit_claim panel ≡ (record panel { busy = some task_id }, some task_id)
unfolding submit_claim
submit_claim_target panel task_id e = ground arith

submit_claim-none : (panel : Panel) → panel.claim_target ≡ none → submit_claim panel ≡ (panel, none)
unfolding submit_claim
submit_claim-none panel e = ground arith

module _ {N : Type 0} (numbers : Numbers N) where
  -- A submission that claims the task which the panel names: the claimant is given, the lease is a
  -- finite number of seconds that is not at most 0, and the task is marked as busy.
  pub record IsClaimOf (panel next : Panel) (after : ClaimDialog) (task_id : Str)
      (claim : ClaimTaskInput N) : Type 0 where
    pub seconds : N
    pub claimant_given : IsGiven claim.claimed_by
    pub lease : claim.lease_seconds ≡ some seconds
    pub finite : numbers.is_finite seconds ≡ true
    pub positive : numbers.le seconds (numbers.literal 0) ≡ false
    pub target : panel.claim_target ≡ some task_id
    pub busy : next.busy ≡ some task_id
    pub no_error : after.error ≡ none

  -- A submission that claims nothing leaves the panel as it is; if there is a task to claim, the
  -- dialog shows an error.
  abbrev pub IsClaim : Panel → ClaimDialog × Panel × Option (Str × ClaimTaskInput N) → Type 0
  IsClaim panel (after, next, none) =
      (next ≡ panel) × (panel.claim_target ≢ none → after.error ≢ none)
  IsClaim panel (after, next, some (task_id, claim)) = IsClaimOf panel next after task_id claim

  accepted-IsClaim :
      (panel : Panel) (after : ClaimDialog) (claimed_by : Str) (seconds : N)
      → IsGiven claimed_by
      → numbers.is_finite seconds ≡ true
      → numbers.le seconds (numbers.literal 0) ≡ false
      → after.error ≡ none
      → let claim : ClaimTaskInput N = record {
        claimed_by = claimed_by;
        lease_seconds = some seconds;
      } in
        IsClaim panel
          (after, (claim_of numbers panel (some claim)).0, (claim_of numbers panel (some claim)).1)
  accepted-IsClaim panel after claimed_by seconds given finite positive calm =
      let claim : ClaimTaskInput N = record {
        claimed_by = claimed_by;
        lease_seconds = some seconds;
      } in
      let P : Panel × Option Str → Type 0 =
        λ r. IsClaim panel (after, r.0, Option.map (λ id. (id, claim)) r.1) in
      elim (Option-cases panel.claim_target) [
        | inl missing ↦
            subst P (sym (submit_claim-none panel missing)) (refl, λ e. absurd (e missing))
        | inr (task_id, target) ↦ subst P (sym (submit_claim_target panel task_id target)) (record {
          seconds = seconds;
          claimant_given = given;
          lease = refl;
          finite = finite;
          positive = positive;
          target = target;
          busy = refl;
          no_error = calm;
        })
      ]

  -- A submission of the dialog claims the task that the panel names, for a given claimant and a
  -- finite number of seconds above 0; or it changes nothing in the panel and, where there is a
  -- task to claim, says why.
  pub claim_task-IsClaim :
      (panel : Panel) (dialog : ClaimDialog) → IsClaim panel (claim_task numbers panel dialog)
  unfolding claim_task submit submit_claim
  claim_task-IsClaim panel dialog =
      let seconds = numbers.number dialog.lease_seconds in
      let P : ClaimDialog × Option (ClaimTaskInput N) → Type 0 =
        λ r. IsClaim panel (r.0, (claim_of numbers panel r.1).0, (claim_of numbers panel r.1).1) in
      if-cases P (is_blank dialog.claimed_by) (λ _. (refl, λ _ e. absurd (cc)))
        (λ given.
          if-cases P (not (numbers.is_finite seconds) || numbers.le seconds (numbers.literal 0))
            (λ _. (refl, λ _ e. absurd (cc)))
            (λ good.
              accepted-IsClaim panel (record dialog { error = none }) (trim dialog.claimed_by)
                seconds (trim-IsGiven dialog.claimed_by given) (ground arith) (ground arith) refl))
