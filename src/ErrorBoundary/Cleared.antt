-- ===== src/ErrorBoundary/Cleared.antt =====
-- A caught error does not outlive a navigation.
use mcp_project_server.Prelude.{
  ◌≡◌, refl, Bool, false, none, List, [], ◌∷◌, ◌++◌, All, arith, inl, inr, Option-cases,
}
use mcp_project_server.ErrorBoundary.{
  Boundary, BoundaryEvent, throws, reset, updated, did_update, handle_boundary,
}

module _ {K : Type 0} (same : K → K → Bool) where
  unfoldable pub run : List (BoundaryEvent K) → Boundary K → Boundary K
  unfolding handle_boundary
  run [] boundary = boundary
  run (event ∷ events) boundary = run events (handle_boundary same boundary event)

  -- Nothing is thrown.
  abbrev pub IsQuiet : BoundaryEvent K → Type 0
  IsQuiet (throws thrown) = ⊥
  IsQuiet reset = Unit {0}
  IsQuiet (updated key) = Unit {0}

  updated_none :
      (boundary : Boundary K) (next : K)
      → boundary.caught ≡ none
      → (did_update same boundary next).caught ≡ none
  unfolding did_update
  updated_none boundary next h = ground (arith, h)

  updated_other :
      (boundary : Boundary K) (next : K)
      → same boundary.reset_key next ≡ false
      → (did_update same boundary next).caught ≡ none
  unfolding did_update
  updated_other boundary next other = elim (Option-cases boundary.caught) [
    | inl calm ↦ updated_none boundary next calm
    | inr (message, failed) ↦ rw (failed, other) refl
  ]

  run_quiet :
      (events : List (BoundaryEvent K)) (boundary : Boundary K)
      → All IsQuiet events
      → boundary.caught ≡ none
      → (run events boundary).caught ≡ none
  unfolding run handle_boundary
  run_quiet [] boundary quiet calm = calm
  run_quiet (throws thrown ∷ events) boundary quiet calm = absurd quiet.0
  run_quiet (reset ∷ events) boundary quiet calm = run_quiet events _ quiet.1 refl
  run_quiet (updated next ∷ events) boundary quiet calm =
      run_quiet events _ quiet.1 (updated_none boundary next calm)

  -- Whatever was caught before, a change of the key clears it, and nothing is shown from then on
  -- until something is thrown.
  pub run_navigated :
      (before later : List (BoundaryEvent K)) (boundary : Boundary K) (next : K)
      → same (run before boundary).reset_key next ≡ false
      → All IsQuiet later
      → (run (before ++ updated next ∷ later) boundary).caught ≡ none
  unfolding run handle_boundary
  run_navigated [] later boundary next other quiet =
      run_quiet later _ quiet (updated_other boundary next other)
  run_navigated (event ∷ before) later boundary next other quiet =
      run_navigated before later (handle_boundary same boundary event) next other quiet
