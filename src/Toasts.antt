-- ===== src/Toasts.antt =====
-- use-toast.ts of the control panel: the toasts that are shown, and the timers that remove them.
-- `R` stands for what React renders. Of the vendored toast's properties only `open` is modelled;
-- the listeners, which are told the state after each action, hold no state of their own.
pub mod Reach
pub mod Dismiss
pub mod SingleSlot
pub mod Calls
mod Tests
use mcp_project_server.Prelude.{
  ℕ, ◌+◌, ◌%◌, Bool, true, false, not, ◌||◌, Option, none, some, List, [], ◌∷◌, map, foldl, filter,
  take, if◌then◌else◌,
}
use mcp_project_server.Js.Str.{Str, str_eq}
use mcp_project_server.Js.Set.{add}

pub record ToasterToast (R : Type 0) : Type 0 where
  pub id : Str
  pub title : Option R
  pub description : Option R
  pub action : Option R
  pub open_ : Option Bool

-- `Partial<ToasterToast>`: an absent field is `none`.
pub record ToastUpdate (R : Type 0) : Type 0 where
  pub id : Option Str
  pub title : Option R
  pub description : Option R
  pub action : Option R
  pub open_ : Option Bool

pub data Action (R : Type 0) : Type 0 where
  add_toast : ToasterToast R → Action R
  update_toast : ToastUpdate R → Action R
  dismiss_toast : Option Str → Action R
  remove_toast : Option Str → Action R

-- `memoryState`, and the keys of `toastTimeouts`: the toasts whose timers run.
pub record ToastState (R : Type 0) : Type 0 where
  pub toasts : List (ToasterToast R)
  pub timeouts : List Str

abbrev pub toast_limit : ℕ
toast_limit = 1

-- `Number.MAX_SAFE_INTEGER`
abbrev max_safe_integer : ℕ
max_safe_integer = 9007199254740991

unfoldable pub next_count : ℕ → ℕ
next_count count = (count + 1) % max_safe_integer

-- `addToRemoveQueue`: a toast with a timer gets no second one.
unfoldable pub add_to_remove_queue : List Str → Str → List Str
unfolding add
add_to_remove_queue timeouts id = add timeouts id

abbrev pub or_old : {A : Type 0} → Option A → Option A → Option A
or_old none old = old
or_old (some new) old = some new

abbrev pub has_id : Option Str → Str → Bool
has_id none id = false
has_id (some other) id = str_eq id other

abbrev is_undefined : Option Str → Bool
is_undefined none = true
is_undefined (some _) = false

module _ {R : Type 0} where
  -- `{ ...t, ...action.toast }`, where the ids agree
  abbrev with_update : ToastUpdate R → ToasterToast R → ToasterToast R
  with_update u t = record {
    id = t.id;
    title = or_old u.title t.title;
    description = or_old u.description t.description;
    action = or_old u.action t.action;
    open_ = or_old u.open_ t.open_;
  }

  unfoldable pub update : ToastUpdate R → ToasterToast R → ToasterToast R
  update u t = if has_id u.id t.id then with_update u t else t

  unfoldable pub close : Option Str → ToasterToast R → ToasterToast R
  close toast_id t =
      if has_id toast_id t.id || is_undefined toast_id then record t { open_ = some false } else t

  -- The timers that a dismissal starts: an empty id counts as none.
  unfoldable pub queue : Option Str → List (ToasterToast R) → List Str → List Str
  unfolding add_to_remove_queue
  queue none toasts timeouts = foldl (λ ids t. add_to_remove_queue ids t.id) timeouts toasts
  queue (some id) toasts timeouts =
      if str_eq id []
      then foldl (λ ids t. add_to_remove_queue ids t.id) timeouts toasts
      else add_to_remove_queue timeouts id

  unfoldable pub reducer : ToastState R → Action R → ToastState R
  reducer s (add_toast t) = record s { toasts = take toast_limit (t ∷ s.toasts) }
  reducer s (update_toast u) = record s { toasts = map (update u) s.toasts }
  reducer s (dismiss_toast toast_id) = record {
    toasts = map (close toast_id) s.toasts;
    timeouts = queue toast_id s.toasts s.timeouts;
  }
  reducer s (remove_toast none) = record s { toasts = [] }
  reducer s (remove_toast (some id)) = record s {
    toasts = filter (λ t. not (str_eq t.id id)) s.toasts;
  }

  -- The callback of a timer: its entry is deleted, and its toast removed.
  unfoldable pub expire : ToastState R → Str → ToastState R
  unfolding reducer
  expire s id =
      reducer (record s { timeouts = filter (λ other. not (str_eq other id)) s.timeouts })
        (remove_toast (some id))
