-- ===== src/Router/Routes.antt =====
-- The routes that the links make are the routes that the shell reads.
use mcp_project_server.Prelude.{◌≡◌, ◌≢◌, refl, false, some, [], ◌∷◌, ◌++◌, All, arith}
use mcp_project_server.Js.Str.{Str, codes, str_eq, str_eq_iff, starts_with, split}
use mcp_project_server.Js.Map.{put}
use mcp_project_server.Router.{
  ProjectView, view_name, segments, project_route, match_segments, match_path,
}

-- What the documentation of the two functions promises: they are inverse, a slash is escaped, a
-- text that is not empty is not made empty, and a text of letters and hyphens is left as it is.
pub record IsCodec (encode decode : Str → Str) : Type 0 where
  pub inverse : (s : Str) → decode (encode s) ≡ s
  pub no_slash : (s : Str) → All (λ c. c ≢ b'/') (encode s)
  pub nonempty : (s : Str) → s ≢ [] → encode s ≢ []
  pub plain : (v : ProjectView) → decode (view_name v) ≡ view_name v

split-append :
    (a s : Str) → All (λ c. c ≢ b'/') a → split b'/' (a ++ (codes "/" ++ s)) ≡ a ∷ split b'/' s
unfolding split
split-append [] s h = refl
split-append (c ∷ a) s h = ground (arith, split-append a s h.1, h.0)

split-view : (v : ProjectView) → split b'/' (view_name v) ≡ view_name v ∷ []
unfolding split
split-view ProjectView.dashboard = refl
split-view ProjectView.requirements = refl
split-view ProjectView.index = refl
split-view ProjectView.code_map = refl

view-nonempty : (v : ProjectView) → str_eq (view_name v) [] ≡ false
unfolding str_eq
view-nonempty ProjectView.dashboard = refl
view-nonempty ProjectView.requirements = refl
view-nonempty ProjectView.index = refl
view-nonempty ProjectView.code_map = refl

pub segments-pattern :
    segments (codes "/projects/:project/:view")
    ≡ codes "projects" ∷ codes ":project" ∷ codes ":view" ∷ []
unfolding segments split str_eq
segments-pattern = refl

module _ (encode decode : Str → Str) (codec : IsCodec encode decode) where
  split-route :
      (project : Str) (v : ProjectView)
      → split b'/' (project_route encode project v)
        ≡ [] ∷ codes "projects" ∷ encode project ∷ view_name v ∷ []
  unfolding project_route split
  split-route project v =
      rw (split-append (encode project) (view_name v) (codec.no_slash project), split-view v) refl

  segments-route :
      (project : Str) (v : ProjectView)
      → project ≢ []
      → segments (project_route encode project v)
        ≡ codes "projects" ∷ encode project ∷ view_name v ∷ []
  unfolding segments str_eq
  segments-route project v h =
      let shown : str_eq (encode project) [] ≡ false =
        ground (arith, str_eq_iff (encode project) [], codec.nonempty project h) in
      rw (split-route project v, shown, view-nonempty v) refl

  -- The route that a link to a project's view makes is read back as that project and that view,
  -- where the project's name is not empty.
  pub match_path-project_route :
      (project : Str) (v : ProjectView)
      → project ≢ []
      → match_path decode (codes "/projects/:project/:view") (project_route encode project v)
        ≡ some ((codes "project", project) ∷ (codes "view", view_name v) ∷ [])
  unfolding match_path match_segments starts_with str_eq put
  match_path-project_route project v h =
      rw (segments-pattern, segments-route project v h, codec.inverse project, codec.plain v) refl
