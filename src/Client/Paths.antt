-- ===== src/Client/Paths.antt =====
-- What a path of the client says: the project and the rest can be read back from it.
use mcp_project_server.Prelude.{◌≡◌, ◌≢◌, refl, sym, ◌∙◌, ap, [], ◌∷◌, ◌++◌, All, arith}
use mcp_project_server.Js.Str.{Str, codes}
use mcp_project_server.Client.Request.{Request}
use mcp_project_server.Client.Requirements.{
  delete_requirement_invariant, delete_acceptance_criterion,
}
use mcp_project_server.Client.Endpoints.{Runtime, project_path, resolve_entry}

-- What the documentation of `encodeURIComponent` promises: it has an inverse, and it escapes `/`.
pub record IsEncoding (encode : Str → Str) : Type 0 where
  pub decode : Str → Str
  pub inverse : (s : Str) → decode (encode s) ≡ s
  pub no_slash : (s : Str) → All (λ c. c ≢ b'/') (encode s)

append-cancel : (p s t : Str) → p ++ s ≡ p ++ t → s ≡ t
append-cancel [] s t e = e
append-cancel (c ∷ p) s t e = append-cancel p s t (ground arith)

-- A text is determined by its first segment and what follows the slash.
cut_at_slash :
    (a b s t : Str)
    → All (λ c. c ≢ b'/') a
    → All (λ c. c ≢ b'/') b
    → a ++ (codes "/" ++ s) ≡ b ++ (codes "/" ++ t)
    → (a ≡ b) × (s ≡ t)
cut_at_slash [] [] s t h k e = (refl, ground arith)
cut_at_slash [] (d ∷ b) s t h k e = absurd (ground arith)
cut_at_slash (c ∷ a) [] s t h k e = absurd (ground arith)
cut_at_slash (c ∷ a) (d ∷ b) s t h k e =
    let (same, rest) = cut_at_slash a b s t h.1 k.1 (ground arith) in (ground arith, rest)

differ :
    (s t : Str) → codes "requirements/invariants/" ++ s ≡ codes "requirements/criteria/" ++ t → ⊥
differ s t e = ground arith

module _ (rt : Runtime) (enc : IsEncoding rt.encode) where
  encode-injective : (s t : Str) → rt.encode s ≡ rt.encode t → s ≡ t
  encode-injective s t e = sym (enc.inverse s) ∙ (ap enc.decode e ∙ enc.inverse t)

  -- Where `encodeURIComponent` has an inverse and escapes the slash, two paths under projects
  -- agree only if both the projects and what follows the slash agree.
  pub project_path-injective :
      (project other s t : Str)
      → project_path rt project (codes "/" ++ s) ≡ project_path rt other (codes "/" ++ t)
      → (project ≡ other) × (s ≡ t)
  unfolding project_path
  project_path-injective project other s t e =
      let (same, rest) =
        cut_at_slash (rt.encode project) (rt.encode other) s t (enc.no_slash project)
          (enc.no_slash other) (append-cancel (codes "/api/projects/") _ _ e) in
      (encode-injective project other same, rest)

  -- Where `encodeURIComponent` has an inverse and escapes the slash, two requests to resolve an
  -- entry agree only if they name the same project and the same entry.
  pub resolve_entry-injective :
      (project other entry_id other_id : Str)
      → resolve_entry rt project entry_id ≡ resolve_entry rt other other_id
      → (project ≡ other) × (entry_id ≡ other_id)
  unfolding resolve_entry
  resolve_entry-injective project other entry_id other_id e =
      let (same, rest) =
        project_path-injective project other _ _ (ap (λ (r : Request). r.path) e) in
      let (id, _) =
        cut_at_slash (rt.encode entry_id) (rt.encode other_id) _ _ (enc.no_slash entry_id)
          (enc.no_slash other_id) (append-cancel (codes "entries/") _ _ rest) in
      (same, encode-injective entry_id other_id id)

  -- Where `encodeURIComponent` has an inverse and escapes the slash, two requests to delete an
  -- invariant agree only if they name the same project and the same
  -- invariant.
  pub delete_requirement_invariant-injective :
      (project other invariant_id other_id : Str)
      → delete_requirement_invariant rt project invariant_id
        ≡ delete_requirement_invariant rt other other_id
      → (project ≡ other) × (invariant_id ≡ other_id)
  unfolding delete_requirement_invariant
  delete_requirement_invariant-injective project other invariant_id other_id e =
      let (same, rest) =
        project_path-injective project other _ _ (ap (λ (r : Request). r.path) e) in
      let id = append-cancel (codes "requirements/invariants/") _ _ rest in
      (same, encode-injective invariant_id other_id id)

  -- Where `encodeURIComponent` has an inverse and escapes the slash, a request to delete an
  -- invariant is never a request to delete a criterion, whatever the
  -- projects and the ids are.
  pub delete_invariant-delete_criterion :
      (project other invariant_id criterion_id : Str)
      → delete_requirement_invariant rt project invariant_id
        ≢ delete_acceptance_criterion rt other criterion_id
  unfolding delete_requirement_invariant delete_acceptance_criterion
  delete_invariant-delete_criterion project other invariant_id criterion_id e =
      let (_, rest) = project_path-injective project other _ _ (ap (λ (r : Request). r.path) e) in
      differ (rt.encode invariant_id) (rt.encode criterion_id) rest
