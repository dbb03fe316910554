-- ===== src/CodeMap/Doc/Reasons.antt =====
-- `hotSpotsFromEntries`: which reasons a file has.
use mathlib.Core.List.{Perm}
use mcp_project_server.Prelude.{
  ℕ, ◌≡◌, refl, Bool, false, ◌&&◌, ◌||◌, List, [], ◌∷◌, ◌++◌, map, foldl, any, length, arith,
}
use mcp_project_server.Js.Str.{Str, codes, str_eq, str_eq_iff}
use mcp_project_server.Js.Set.{has, add, has-add}
use mcp_project_server.Js.Map.{Map, get, get-put}
use mcp_project_server.Js.Sort.{
  Sign, difference, PutsGreaterFirst, Descends, sort-perm, sort-Descends,
}
use mcp_project_server.Api.Types.{Entry}
use mcp_project_server.CodeMap.Graph.{add_to, members}
use mcp_project_server.CodeMap.Related.{link_path}
use mcp_project_server.CodeMap.Doc.{
  add_file, add_reasons, reasons_by_path, hot_spots_from_entries, compare_spots,
}

-- A reason is recorded for a path.
abbrev pub has_reason : Map (List Str) → Str → Str → Bool
has_reason m path reason = has (members (get m path)) reason

-- An entry gives the reason for a path: one of its linked files is the path, rid of white space
-- and slashes at its ends.
abbrev pub gives : Str → Str → Str → Entry → Bool
gives prefix path reason entry =
    str_eq (prefix ++ entry.headline) reason
    && any (λ f. str_eq (link_path f) path) entry.linked_files

has_reason-add_to :
    (m : Map (List Str)) (key value path reason : Str)
    → has_reason (add_to m key value) path reason
      ≡ ((str_eq key path && str_eq value reason) || has_reason m path reason)
unfolding add_to
has_reason-add_to m key value path reason = ground (
  arith,
  get-put m key path (add (members (get m key)) value),
  has-add (members (get m key)) value reason,
  str_eq_iff key path,
)

has_reason-add_file :
    (given : Str) (m : Map (List Str)) (name path reason : Str)
    → str_eq path [] ≡ false
    → has_reason (add_file given m name) path reason
      ≡ ((str_eq given reason && str_eq (link_path name) path) || has_reason m path reason)
unfolding add_file
has_reason-add_file given m name path reason nonempty =
    let key = link_path name in
    ground (
      arith,
      has_reason-add_to m key given path reason,
      str_eq_iff key [],
      str_eq_iff path [],
      str_eq_iff key path,
    )

has_reason-files :
    (given : Str) (names : List Str) (m : Map (List Str)) (path reason : Str)
    → str_eq path [] ≡ false
    → has_reason (foldl (add_file given) m names) path reason ≡ (
        (str_eq given reason && any (λ f. str_eq (link_path f) path) names)
        || has_reason m path reason)
has_reason-files given [] m path reason nonempty = ground arith
has_reason-files given (f ∷ fs) m path reason nonempty = ground (
  arith,
  has_reason-files given fs (add_file given m f) path reason nonempty,
  has_reason-add_file given m f path reason nonempty,
)

has_reason-entries :
    (prefix : Str) (entries : List Entry) (m : Map (List Str)) (path reason : Str)
    → str_eq path [] ≡ false
    → has_reason (foldl (add_reasons prefix) m entries) path reason
      ≡ (any (gives prefix path reason) entries || has_reason m path reason)
unfolding add_reasons
has_reason-entries prefix [] m path reason nonempty = refl
has_reason-entries prefix (e ∷ es) m path reason nonempty = ground (
  arith,
  has_reason-entries prefix es (add_reasons prefix m e) path reason nonempty,
  has_reason-files (prefix ++ e.headline) e.linked_files m path reason nonempty,
)

none_yet : (path reason : Str) → has_reason [] path reason ≡ false
unfolding get has
none_yet path reason = refl

-- A nonempty path has a reason exactly if a blocker or bug with that prefix and headline links
-- a file that is the path, rid of white space and slashes at its ends.
pub has_reason-reasons_by_path :
    (blockers bugs : List Entry) (path reason : Str)
    → str_eq path [] ≡ false
    → has_reason (reasons_by_path blockers bugs) path reason ≡ (
        any (gives (codes "bug: ") path reason) bugs
        || any (gives (codes "blocker: ") path reason) blockers)
unfolding reasons_by_path
has_reason-reasons_by_path blockers bugs path reason nonempty =
    let after_blockers = foldl (add_reasons (codes "blocker: ")) [] blockers in
    ground (
      arith,
      has_reason-entries (codes "bug: ") bugs after_blockers path reason nonempty,
      has_reason-entries (codes "blocker: ") blockers [] path reason nonempty,
      none_yet path reason,
    )

module _ (show : ℕ → Str) (locale_compare : Str → Str → Sign) where
  compare_spots-PutsGreaterFirst :
      PutsGreaterFirst (compare_spots show locale_compare) (λ s. length s.reasons)
  unfolding compare_spots difference
  compare_spots-PutsGreaterFirst = record {
    swaps = λ x y h. ground (arith, h);
    keeps = λ x y h. ground (arith, h);
  }

  -- The hot spots are the recorded files with their reasons, each as often as it is recorded, and
  -- the reasons of one are never fewer than those of a later one.
  pub hot_spots-perm :
      (blockers bugs : List Entry)
      → Perm (hot_spots_from_entries show locale_compare blockers bugs) (
          map
            (λ (e : Str × List Str). record { path = e.0; reasons = e.1 })
            (reasons_by_path blockers bugs))
        × Descends
            (λ s. length s.reasons)
            (hot_spots_from_entries show locale_compare blockers bugs)
  unfolding hot_spots_from_entries
  hot_spots-perm blockers bugs = (
    sort-perm (compare_spots show locale_compare) _,
    sort-Descends _ (λ s. length s.reasons) compare_spots-PutsGreaterFirst _,
  )
