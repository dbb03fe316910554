-- ===== src/Compliance/Complete.antt =====
-- What the aggregate of the batches says of the requirements that were asked for.
use mcp_project_server.Prelude.{
  ℕ, ◌+◌, ◌<◌, ◌≤◌, length, ◌↔◌, subst, All-In, In-append, In-append_left, In-append_right, ◌≡◌,
  Option, some, List, [], ◌∷◌, ◌++◌, map, map-append, All, All-map, All-In_self, In, concat,
  Option-cases, inl, inr,
}
use mcp_project_server.Js.Str.{Str}
use mcp_project_server.Api.Compliance.{RequirementComplianceResponse}
use mcp_project_server.Client.Request.{Request}
use mcp_project_server.Client.Endpoints.{Runtime}
use mcp_project_server.Client.Requirements.{review_requirement_compliance}
use mcp_project_server.Compliance.{
  batch_size, chunks_of, successful, batch_error, batch_errors, aggregate, load_compliance,
}
use mcp_project_server.Compliance.Batches.{chunks_of-IsBatched}

-- The requirements that a response is about.
abbrev pub reviewed : RequirementComplianceResponse → List Str
reviewed r = map (λ row. row.requirement_id) r.requirements

-- An answer has a row for every requirement of the batch, and for no other.
abbrev pub HasRows : (batch : List Str) → RequirementComplianceResponse → Type 0
HasRows batch r = (id : Str) → In id (reviewed r) ↔ In id batch

In-append_iff :
    (id : Str) (xs xs' ys ys' : List Str)
    → In id xs ↔ In id xs'
    → In id ys ↔ In id ys'
    → In id (xs ++ ys) ↔ In id (xs' ++ ys')
In-append_iff id xs xs' ys ys' first later = (
  (λ m. elim (In-append id xs ys m) [
    | inl l ↦ In-append_left id xs' ys' (first.0 l)
    | inr r ↦ In-append_right id xs' ys' (later.0 r)
  ]),
  (λ m. elim (In-append id xs' ys' m) [
    | inl l ↦ In-append_left id xs ys (first.1 l)
    | inr r ↦ In-append_right id xs ys (later.1 r)
  ]),
)

-- A batch that fails has an error; one that succeeds has its rows.
module _ (show : ℕ → Str) (review : List Str → Option RequirementComplianceResponse) where
  abbrev IsAnswered : List Str → Type 0
  IsAnswered batch = (r : RequirementComplianceResponse) → review batch ≡ some r → HasRows batch r

  -- Without an error every batch has its rows.
  rows_of :
      (index : ℕ) (chunks : List (List Str)) (id : Str)
      → All IsAnswered chunks
      → batch_errors show index (map review chunks) ≡ []
      → In id (
          map
            (λ row. row.requirement_id)
            (concat (map (λ r. r.requirements) (successful (map review chunks)))))
        ↔ In id (concat chunks)
  unfolding batch_errors successful
  rows_of index [] id answers h = (λ m. m, λ m. m)
  rows_of index (ids ∷ chunks) id (answer, answers) h = elim (Option-cases (review ids)) [
    | inl rejected ↦ absurd (
        let no : batch_error show (index + 1) ∷ batch_errors show (index + 1) (map review chunks)
            ≡ [] =
          rw rejected at h in
        cc)
    | inr (r, done) ↦
        let later : batch_errors show (index + 1) (map review chunks) ≡ [] = rw done at h in
        rw done (
          rw
            (map-append (λ row. row.requirement_id) r.requirements
              (concat (map (λ r. r.requirements) (successful (map review chunks)))))
            (In-append_iff id _ ids _ (concat chunks) (answer r done id)
              (rows_of (index + 1) chunks id answers later)))
  ]

-- If no error is reported, the aggregate has a row for a requirement exactly if it was asked for,
-- as long as each answer of the server to a batch of at most 25 has one for every requirement of
-- the batch, in whatever order, and for no other.
pub load_compliance_complete :
    (rt : Runtime) (review : Request → Option RequirementComplianceResponse) (project : Str)
    (ids : List Str)
    → ((batch : List Str) (r : RequirementComplianceResponse)
        → In batch (chunks_of ids)
        → length batch ≤ 25
        → review (review_requirement_compliance rt project batch) ≡ some r
        → HasRows batch r)
    → (load_compliance rt review project ids).errors ≡ []
    → (id : Str) → In id (reviewed (load_compliance rt review project ids).response) ↔ In id ids
unfolding load_compliance aggregate
load_compliance_complete rt review project ids answers clean id =
    let batched = chunks_of-IsBatched ids in
    subst
      (λ (all : List Str).
        In id (reviewed (load_compliance rt review project ids).response) ↔ In id all)
      batched.whole
      (rows_of rt.show (λ batch. review (review_requirement_compliance rt project batch)) 0
        (chunks_of ids) id
        (All-map (λ batch. In batch (chunks_of ids)) _ (chunks_of ids)
          (λ batch m r.
            answers batch r m
              (All-In (λ c. (0 < length c) × (length c ≤ batch_size)) (chunks_of ids) batched.sizes
                m).1)
          (All-In_self (chunks_of ids)))
        clean)
