-- ===== src/ErrorBoundary/Tests.antt =====
-- Keys that are numbers.
use mcp_project_server.Prelude.{ℕ, ◌≡◌, refl, none, some, List, [], ◌∷◌, ◌==◌}
use mcp_project_server.Js.Str.{codes}
use mcp_project_server.ErrorBoundary.{Bool, Boundary, BoundaryEvent, throws, updated, text}
use mcp_project_server.ErrorBoundary.Cleared.{run}

abbrev boundary : Boundary ℕ
boundary = record { caught = none; reset_key = 1 }

abbrev same : ℕ → ℕ → Bool
same a b = a == b

abbrev events : List (BoundaryEvent ℕ)
events = throws (text (codes "x")) ∷ updated 1 ∷ []

still_shown : (run same events boundary).caught ≡ some (codes "x")
unfolding run
still_shown = refl

cleared_by_navigation :
    (run same (throws (text (codes "x")) ∷ updated 2 ∷ []) boundary).caught ≡ none
unfolding run
cleared_by_navigation = refl
