-- ===== src/ErrorBoundary.antt =====
-- pcs-control-panel-project/artifacts/pcs-control-panel/src/components/error-boundary.tsx: the
-- error that a boundary has caught, and what clears it. `K` is the type of reset keys, of which
-- `same` is `===`; errors are their messages.
pub mod Cleared
mod Tests
use mcp_project_server.Prelude.{Bool, true, false, not, ◌&&◌, Option, none, some, if◌then◌else◌}
use mcp_project_server.Js.Str.{Str}

-- What is thrown: an `Error` with its message, a text, or another value, with the text of its JSON
-- where `JSON.stringify` does not throw, and the text that `String` gives.
pub data Thrown : Type 0 where
  error : (message : Str) → Thrown
  text : Str → Thrown
  other : (json : Option Str) → (shown : Str) → Thrown

unfoldable pub to_error : Thrown → Str
to_error (error message) = message
to_error (text s) = s
to_error (other (some json) shown) = json
to_error (other none shown) = shown

-- The state of a boundary, and the key that it was last given.
pub record Boundary (K : Type 0) : Type 0 where
  pub caught : Option Str
  pub reset_key : K

abbrev is_caught : Option Str → Bool
is_caught none = false
is_caught (some _) = true

pub data BoundaryEvent (K : Type 0) : Type 0 where
  throws : Thrown → BoundaryEvent K
  reset : BoundaryEvent K
  updated : (reset_key : K) → BoundaryEvent K

module _ {K : Type 0} (same : K → K → Bool) where
  -- `componentDidUpdate`
  unfoldable pub did_update : Boundary K → K → Boundary K
  did_update boundary reset_key =
      if is_caught boundary.caught && not (same boundary.reset_key reset_key)
      then record { caught = none; reset_key = reset_key }
      else record { caught = boundary.caught; reset_key = reset_key }

  unfoldable pub handle_boundary : Boundary K → BoundaryEvent K → Boundary K
  unfolding to_error did_update
  handle_boundary boundary (throws thrown) = record boundary { caught = some (to_error thrown) }
  handle_boundary boundary reset = record boundary { caught = none }
  handle_boundary boundary (updated reset_key) = did_update boundary reset_key
