-- ===== src/Drafts/Prerequisites.antt =====
-- The prerequisites of a task of a draft are those that the draft lists for it.
use mcp_project_server.Prelude.{
  ◌⊎◌, ◌≡◌, refl, ap, sym, ◌∙◌, ◌↔◌, inl, inr, true, List, [], ◌∷◌, In, All, Bool-cases, subst,
}
use mcp_project_server.Js.Str.{Str, str_eq, str_eq_iff}
use mcp_project_server.Api.Plans.{PlanDraftDependency}
use mcp_project_server.Drafts.{prerequisites_of}

-- The draft lists `prerequisite` for the task `id`.
abbrev pub Lists : List PlanDraftDependency → Str → Str → Type 0
Lists dependencies id prerequisite =
    (d : PlanDraftDependency) × In d dependencies
    × (d.task_local_id ≡ id)
    × (d.depends_on_local_id ≡ prerequisite)

listed :
    (dependencies : List PlanDraftDependency) (id p : Str)
    → In p (prerequisites_of dependencies id)
    → Lists dependencies id p
listed [] id p m = absurd m
listed (d ∷ ds) id p m = elim (Bool-cases (str_eq d.task_local_id id)) [
  | inr other ↦ let (e, n, own, same) = listed ds id p (rw other at m) in (e, inr n, own, same)
  | inl own ↦
      let m' : (p ≡ d.depends_on_local_id) ⊎ In p (prerequisites_of ds id) = rw own at m in
      elim m' [
        | inl same ↦ (d, inl refl, (str_eq_iff d.task_local_id id).0 own, sym same)
        | inr later ↦ let (e, n, own', same) = listed ds id p later in (e, inr n, own', same)
      ]
]

found :
    (dependencies : List PlanDraftDependency) (id p : Str)
    → (d : PlanDraftDependency) → In d dependencies
    → d.task_local_id ≡ id
    → d.depends_on_local_id ≡ p
    → In p (prerequisites_of dependencies id)
found [] id p d m own same = absurd m
found (e ∷ es) id p d (inl first) own same =
    let key : str_eq e.task_local_id id ≡ true =
      (str_eq_iff e.task_local_id id).1
        (ap (λ (x : PlanDraftDependency). x.task_local_id) (sym first) ∙ own) in
    rw key (inl (sym same ∙ ap (λ (x : PlanDraftDependency). x.depends_on_local_id) first))
found (e ∷ es) id p d (inr later) own same = elim (Bool-cases (str_eq e.task_local_id id)) [
  | inl mine ↦ rw mine (inr (found es id p d later own same))
  | inr other ↦ rw other (found es id p d later own same)
]

-- The tasks of the view have exactly the prerequisites that the draft lists for them.
pub prerequisites_of_iff :
    (dependencies : List PlanDraftDependency) (id prerequisite : Str)
    → In prerequisite (prerequisites_of dependencies id) ↔ Lists dependencies id prerequisite
prerequisites_of_iff dependencies id p =
    (listed dependencies id p, λ (d, m, own, same). found dependencies id p d m own same)

-- What holds of all listed pairs holds of a task's prerequisites.
pub prerequisites_of-All :
    (P : Str → Str → Type 0) (dependencies : List PlanDraftDependency) (id : Str)
    → All (λ d. P d.task_local_id d.depends_on_local_id) dependencies
    → All (P id) (prerequisites_of dependencies id)
prerequisites_of-All P [] id h = tt
prerequisites_of-All P (d ∷ ds) id h = elim (Bool-cases (str_eq d.task_local_id id)) [
  | inl own ↦
      let key = (str_eq_iff d.task_local_id id).0 own in
      rw own
        (subst (λ (k : Str). P k d.depends_on_local_id) key h.0, prerequisites_of-All P ds id h.1)
  | inr other ↦ rw other (prerequisites_of-All P ds id h.1)
]
