-- ===== src/CodeMap/Overlay.antt =====
-- `overlayTone` of web/src/lib/codemap.ts: the one status colour of a node.
use mcp_project_server.Prelude.{
  ◌<◌, ◌+◌, ◌≢◌, ◌≡◌, ◌⊎◌, ◌↔◌, true, ◌||◌, Option, none, some, arith, ltb, if◌then◌else◌,
}
use mcp_project_server.Api.Types.{CodeMapOverlay}

pub data OverlayTone : Type 0 where
  ember growth mist : OverlayTone

unfoldable pub overlay_tone : CodeMapOverlay → Option OverlayTone
overlay_tone o =
    if o.hot || (ltb 0 o.blockers || ltb 0 o.bugs)
    then some ember
    else if ltb 0 o.focus
    then some growth
    else if ltb 0 o.requirements
    then some mist
    else none

-- The trouble that an overlay counts, and everything that it counts.
abbrev pub IsHotSpot : CodeMapOverlay → Type 0
IsHotSpot o = (o.hot ≡ true) ⊎ (0 < o.blockers + o.bugs)

-- A node is shown in ember exactly if it is a hot spot, and without a colour exactly if it is not
-- hot and all its counts are zero.
pub overlay_tone_iff :
    (o : CodeMapOverlay)
    → ((overlay_tone o ≡ some ember) ↔ IsHotSpot o)
      × ((overlay_tone o ≡ none)
          ↔ ((o.hot ≢ true) × (o.blockers + o.bugs + o.focus + o.requirements ≡ 0)))
unfolding overlay_tone
overlay_tone_iff o = ((ground arith, ground arith), (ground arith, ground arith))
