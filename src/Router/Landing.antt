-- ===== src/Router/Landing.antt =====
-- A redirect of the shell lands: it is not redirected again.
use mcp_project_server.Prelude.{
  ◌≡◌, ◌≢◌, refl, ap, ◌∙◌, subst, ◌⊎◌, inl, inr, not, ◌||◌, Option, none, some, List, [], ◌∷◌, All,
  Bool-cases, if-both, arith, filter,
}
use mcp_project_server.Js.Str.{Str, codes, str_eq, starts_with, split, str_eq_iff}
use mcp_project_server.Js.Map.{Map, get, put}
use mcp_project_server.Router.{
  ProjectView, view_name, project_route, match_path, match_segments, segments,
}
use mcp_project_server.Router.Routes.{IsCodec, match_path-project_route, segments-pattern}
use mcp_project_server.Router.Shell.{
  Resolved, find_view, param, of_match, of_view, resolve, shell, content, project_view,
  project_list,
}

find_view-view_name : (v : ProjectView) → find_view (view_name v) ≡ some v
unfolding find_view
find_view-view_name ProjectView.dashboard = refl
find_view-view_name ProjectView.requirements = refl
find_view-view_name ProjectView.index = refl
find_view-view_name ProjectView.code_map = refl

-- Where a redirect leads.
abbrev IsTarget : (Str → Str) → Option Str → Type 0
IsTarget encode none = Unit
IsTarget encode (some r) =
    (r ≡ codes "/")
    ⊎ ((project : Str) × (project ≢ []) × (r ≡ project_route encode project ProjectView.dashboard))

segments_nonempty : (xs : List Str) → All (λ s. s ≢ []) (filter (λ s. not (str_eq s [])) xs)
segments_nonempty [] = tt
segments_nonempty (x ∷ xs) = elim (Bool-cases (str_eq x [])) [
  | inl empty ↦ rw empty (segments_nonempty xs)
  | inr some_text ↦ rw some_text (ground (arith, str_eq_iff x []), segments_nonempty xs)
]

shown : (path : Str) → All (λ s. s ≢ []) (segments path)
unfolding segments
shown path = segments_nonempty (split b'/' path)

segments-bare : segments (codes "/projects/:project") ≡ codes "projects" ∷ codes ":project" ∷ []
unfolding segments split str_eq
segments-bare = refl

-- The project of a match is not empty.
unfoldable HasProject : Option (Map Str) → Type 0
HasProject none = Unit
HasProject (some params) = param params (codes "project") ≢ []

module _ (decode : Str → Str) (keeps : (s : Str) → s ≢ [] → decode s ≢ []) where
  view_match :
      (segs : List Str)
      → All (λ s. s ≢ []) segs
      → HasProject
          (match_segments decode (codes "projects" ∷ codes ":project" ∷ codes ":view" ∷ []) segs [])
  unfolding match_segments HasProject str_eq starts_with get put
  view_match [] h = tt
  view_match (x ∷ []) h = if-both HasProject (str_eq (codes "projects") x) tt tt
  view_match (x ∷ a ∷ []) h = if-both HasProject (str_eq (codes "projects") x) tt tt
  view_match (x ∷ a ∷ b ∷ []) h =
      if-both HasProject (str_eq (codes "projects") x) (keeps a h.1.0) tt
  view_match (x ∷ a ∷ b ∷ c ∷ segs) h = if-both HasProject (str_eq (codes "projects") x) tt tt

  bare_match :
      (segs : List Str)
      → All (λ s. s ≢ []) segs
      → HasProject (match_segments decode (codes "projects" ∷ codes ":project" ∷ []) segs [])
  unfolding match_segments HasProject str_eq starts_with get put
  bare_match [] h = tt
  bare_match (x ∷ []) h = if-both HasProject (str_eq (codes "projects") x) tt tt
  bare_match (x ∷ a ∷ []) h = if-both HasProject (str_eq (codes "projects") x) (keeps a h.1.0) tt
  bare_match (x ∷ a ∷ b ∷ segs) h = if-both HasProject (str_eq (codes "projects") x) tt tt

module _ (encode : Str → Str) where
  of_match-IsTarget :
      (o bare : Option (Map Str))
      → HasProject o
      → HasProject bare
      → IsTarget encode (of_match encode o bare).redirect_to
  unfolding HasProject
  of_match-IsTarget none none h k = inl refl
  of_match-IsTarget none (some params) h k = inr (param params (codes "project"), k, refl)
  of_match-IsTarget (some params) bare h k =
      elim (find_view (param params (codes "view")))
        as (λ v. IsTarget encode (of_view encode (param params (codes "project")) v).redirect_to) [
          | none ↦ inr (param params (codes "project"), h, refl)
          | some v ↦ tt
        ]

module _ (encode decode : Str → Str) (keeps : (s : Str) → s ≢ [] → decode s ≢ []) where
  shell-IsTarget : (path : Str) → IsTarget encode (shell encode decode path).redirect_to
  unfolding shell resolve match_path
  shell-IsTarget path =
      let Goes : Resolved → Type 0 = λ r. IsTarget encode r.redirect_to in
      if-both Goes (str_eq path (codes "/settings/ai")) tt (
        if-both Goes (str_eq path (codes "/") || str_eq path []) tt (
          of_match-IsTarget encode _ _
            (rw segments-pattern (view_match decode keeps (segments path) (shown path)))
            (rw segments-bare (bare_match decode keeps (segments path) (shown path)))))

module _ (encode decode : Str → Str) (codec : IsCodec encode decode) where
  -- The shell shows a project's view at the route that a link to it makes.
  pub content-project_route :
      (project : Str) (v : ProjectView)
      → project ≢ []
      → content encode decode (project_route encode project v) ≡ project_view project v
  unfolding content shell resolve project_route str_eq get
  content-project_route project v some_project =
      rw
        (match_path-project_route encode decode codec project v some_project, find_view-view_name v)
        refl

content-root : (encode decode : Str → Str) → content encode decode (codes "/") ≡ project_list
unfolding content shell resolve str_eq
content-root encode decode = refl

-- A redirect of the shell lands: the path that it leads to shows the list of projects or the
-- dashboard of a project, and never another redirect.
pub content-redirect :
    (encode decode : Str → Str) (path target : Str)
    → IsCodec encode decode
    → ((s : Str) → s ≢ [] → decode s ≢ [])
    → (shell encode decode path).redirect_to ≡ some target
    → (content encode decode target ≡ project_list)
      ⊎ ((project : Str) × (content encode decode target
            ≡ project_view project ProjectView.dashboard))
content-redirect encode decode path target codec keeps goes =
    let is_target : IsTarget encode (some target) =
      subst (IsTarget encode) goes (shell-IsTarget encode decode keeps path) in
    elim is_target [
      | inl root ↦ inl (ap (content encode decode) root ∙ content-root encode decode)
      | inr (project, some_project, same) ↦ inr (
        project,
        ap (content encode decode) same
            ∙ content-project_route encode decode codec project ProjectView.dashboard some_project,
      )
    ]
