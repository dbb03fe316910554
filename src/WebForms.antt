-- ===== src/WebForms.antt =====
-- The forms of the web interface: web/src/components/EntryForm.tsx, EntryCard.tsx, RegisterForm.tsx
-- and SearchPanel.tsx, and those of web/src/views/FocusPanel.tsx, SectionPanel.tsx and
-- RequirementsView.tsx. A handler's result is what it hands on, `none` where it returns early.
pub mod Handed
mod Tests
use mcp_project_server.Prelude.{
  Bool, true, false, not, ◌&&◌, ◌||◌, Option, none, some, List, [], ◌∷◌, if◌then◌else◌,
}
use mcp_project_server.Js.Str.{Str, codes, str_eq, trim}
use mcp_project_server.Api.Types.{Entry, EntryLifecycle, RequirementStatus}
use mcp_project_server.Api.Projects.{EntryInput, RegisterProjectInput}
use mcp_project_server.Api.Requirements.{RequirementsFileSync}
use mcp_project_server.PlanForms.{is_blank}

-- The state of `EntryForm`.
pub record EntryForm : Type 0 where
  pub headline : Str
  pub detail : Str

unfoldable pub can_submit : (with_headline : Bool) → EntryForm → Bool
unfolding is_blank
can_submit with_headline form =
    (if with_headline then not (is_blank form.headline) else true) && not (is_blank form.detail)

unfoldable pub submit_entry : (with_headline pending : Bool) → EntryForm → Option EntryInput
unfolding can_submit trim
submit_entry with_headline pending form =
    if not (can_submit with_headline form) || pending
    then none
    else some (record {
      section = none;
      headline = if with_headline then some (trim form.headline) else none;
      detail = some (trim form.detail);
      priority = none;
      status = none;
      linked_files = none;
    })

-- `SectionPanel` adds the section to what its form hands over.
unfoldable pub section_input : Str → EntryInput → EntryInput
section_input section input = record input { section = some section }

-- The state of `EntryCard` is whether the entry is edited.
pub data CardEvent : Type 0 where
  edit cancel resolve : CardEvent
  save : EntryInput → CardEvent

pub data CardCall : Type 0 where
  update : EntryInput → CardCall
  resolve_entry : CardCall

unfoldable pub handle_card : (editing : Bool) → CardEvent → Bool × Option CardCall
handle_card editing edit = (true, none)
handle_card editing cancel = (false, none)
handle_card editing resolve = (editing, some resolve_entry)
handle_card editing (save input) = (false, some (update input))

-- `entry.status !== "open"`
unfoldable pub is_resolved : Entry → Bool
is_resolved entry = elim entry.status [ EntryLifecycle.opened ↦ false | _ ↦ true ]

-- The first open entry of the focus section, and its text.
unfoldable pub current_focus : List Entry → Option Entry
unfolding is_resolved
current_focus [] = none
current_focus (entry ∷ entries) =
    let rest = current_focus entries in if is_resolved entry then rest else some entry

abbrev pub detail_of : Option Entry → Str
detail_of none = []
detail_of (some entry) = entry.detail

unfoldable pub current_text : List Entry → Str
unfolding current_focus
current_text entries = detail_of (current_focus entries)

unfoldable pub is_dirty : (draft current_text : Str) → Bool
unfolding trim str_eq
is_dirty draft text = not (str_eq (trim draft) (trim text))

unfoldable pub submit_focus : (pending : Bool) → (draft current_text : Str) → Option Str
unfolding is_dirty trim
submit_focus pending draft text =
    if not (is_dirty draft text) || pending then none else some (trim draft)

-- The form of `RequirementsView`.
pub record RequirementForm : Type 0 where
  pub title : Str
  pub status : RequirementStatus

unfoldable pub submit_requirement :
    (pending : Bool) → RequirementForm → Option (Str × RequirementStatus)
unfolding is_blank trim
submit_requirement pending form =
    if is_blank form.title || pending then none else some (trim form.title, form.status)

unfoldable pub requirement_added : RequirementForm → RequirementForm
requirement_added form = record { title = []; status = RequirementStatus.not_started }

-- `RegisterForm` hands its texts on as they are.
unfoldable pub submit_register : (name root_path overview : Str) → RegisterProjectInput
submit_register name root_path overview = record {
  name = name;
  root_path = root_path;
  overview = overview;
}

-- `SearchPanel`: the query of a draft, and whether the button is disabled.
unfoldable pub submit_search : Str → Str
unfolding trim
submit_search draft = trim draft

unfoldable pub search_disabled : Str → Bool
unfolding is_blank
search_disabled draft = is_blank draft

abbrev is_nil : {A : Type 0} → List A → Bool
is_nil [] = true
is_nil (_ ∷ _) = false

-- Whether `RequirementsFileNotice` shows anything.
unfoldable pub shows_notice : Option RequirementsFileSync → Bool
shows_notice none = false
shows_notice (some sync) =
    not (is_nil sync.errors) || (not (is_nil sync.reconciliations) || not sync.writable)
