-- ===== src/Toasts/Calls.antt =====
-- `toast` of use-toast.ts, with the functions that it gives its caller.
use mcp_project_server.Prelude.{ℕ, ◌≡◌, ◌≢◌, refl, true, false, Option, none, some, []}
use mcp_project_server.Js.Str.{Str, str_eq_refl}
use mcp_project_server.Toasts.{
  ToasterToast, ToastState, ToastUpdate, Action, add_toast, update_toast, dismiss_toast, reducer,
  next_count, close,
}
use mcp_project_server.Toasts.Dismiss.{dismiss-IsDismissed}
use mcp_project_server.Toasts.SingleSlot.{tick, happen, slot_of}

-- `Toast`: a toast without its id; `toast` sets `open` itself.
pub record ToastProps (R : Type 0) : Type 0 where
  pub title : Option R
  pub description : Option R
  pub action : Option R

-- The module's state: `count`, and what `dispatch` keeps.
pub record Toaster (R : Type 0) : Type 0 where
  pub count : ℕ
  pub state : ToastState R

abbrev pub new_toast : {R : Type 0} → Str → ToastProps R → ToasterToast R
new_toast id props = record {
  id = id;
  title = props.title;
  description = props.description;
  action = props.action;
  open_ = some true;
}

module _ {R : Type 0} where
  -- `dispatch`; the listeners are told the new state.
  unfoldable pub dispatch : Toaster R → Action R → Toaster R
  unfolding reducer
  dispatch toaster a = record toaster { state = reducer toaster.state a }

  -- The id of the new toast, and the state after it. `show` is the runtime's `String` of a number.
  unfoldable pub toast : (ℕ → Str) → ToastProps R → Toaster R → Str × Toaster R
  unfolding next_count dispatch
  toast show props toaster =
      let count = next_count toaster.count in
      let id = show count in
      (id, dispatch (record toaster { count = count }) (add_toast (new_toast id props)))

  -- `dismiss` and `update` of the toast with an id.
  unfoldable pub dismiss : Str → Toaster R → Toaster R
  unfolding dispatch
  dismiss id toaster = dispatch toaster (dismiss_toast (some id))

  unfoldable pub update_one : Str → ToastUpdate R → Toaster R → Toaster R
  unfolding dispatch
  update_one id props toaster = dispatch toaster (update_toast (record props { id = some id }))

-- A new toast is the one that is shown, and open, whatever was shown before; once it is dismissed
-- it is still shown but closed, and after its timer nothing is shown. Ids are not empty.
pub toast-lifecycle :
    {R : Type 0} (show : ℕ → Str) (props : ToastProps R) (toaster : Toaster R)
    → ((n : ℕ) → show n ≢ [])
    → let (id, shown) = toast show props toaster in
      let dismissed = dismiss id shown in
      ((slot_of shown.state).shown ≡ some (new_toast id props))
      × ((slot_of dismissed.state).shown
          ≡ some (record (new_toast id props) { open_ = some false }))
      × ((slot_of dismissed.state).runs id ≡ true)
      × ((slot_of (happen dismissed.state (tick id))).shown ≡ none)
unfolding toast dismiss dispatch happen close
toast-lifecycle show props toaster named =
    let id = show (next_count toaster.count) in
    let same = str_eq_refl id in
    (
      refl,
      rw same refl,
      (dismiss-IsDismissed (toast show props toaster).1.state id (named _)).runs,
      rw (same, same) refl,
    )
