-- ===== src/Toasts/SingleSlot.antt =====
-- The toasts as their users see them: a slot for one toast, and which timers run.
use mathlib.Core.Option
use mathlib.Core.Path.{ap₂}
use mcp_project_server.Prelude.{
  ◌≡◌, refl, ap, ◌∙◌, fun_ext, Bool, true, false, not, ◌&&◌, ◌||◌, ◌≤◌, Option, none, some, List,
  [], ◌∷◌, filter, length, arith, if◌then◌else◌,
}
use mcp_project_server.Js.Str.{Str, str_eq, str_eq_iff}
use mcp_project_server.Js.Set.{has, add, has-add}
use mcp_project_server.Toasts.{
  ToasterToast, ToastState, Action, add_toast, update_toast, dismiss_toast, remove_toast, reducer,
  expire, queue, update, close, add_to_remove_queue,
}

-- What happens to the toasts: an action is dispatched, or a timer expires.
pub data Event (R : Type 0) : Type 0 where
  act : Action R → Event R
  tick : Str → Event R

-- The toast that is shown, and which timers run.
pub record Slot (R : Type 0) : Type 0 where
  pub shown : Option (ToasterToast R)
  pub runs : Str → Bool

abbrev start : (Str → Bool) → Str → Str → Bool
start runs id other = str_eq id other || runs other

module _ {R : Type 0} where
  unfoldable pub happen : ToastState R → Event R → ToastState R
  unfolding reducer expire
  happen s (act a) = reducer s a
  happen s (tick id) = expire s id

  unfoldable pub run : List (Event R) → ToastState R → ToastState R
  run [] s = s
  run (e ∷ events) s = run events (happen s e)

  abbrev start_shown : (Str → Bool) → Option (ToasterToast R) → Str → Bool
  start_shown runs none other = runs other
  start_shown runs (some t) other = start runs t.id other

  -- The timers after a dismissal: without an id, the shown toast's timer starts.
  abbrev dismissed : (Str → Bool) → Option Str → Option (ToasterToast R) → Str → Bool
  dismissed runs none shown other = start_shown runs shown other
  dismissed runs (some id) shown other =
      if str_eq id [] then start_shown runs shown other else start runs id other

  abbrev unless_id : Str → Option (ToasterToast R) → Option (ToasterToast R)
  unless_id id none = none
  unless_id id (some t) = if str_eq t.id id then none else some t

  -- The same events on the slot: adding replaces, and nothing else fills it.
  unfoldable pub replay_one : Slot R → Event R → Slot R
  replay_one s (act (add_toast t)) = record s { shown = some t }
  replay_one s (act (update_toast u)) = record s { shown = Option.map (update u) s.shown }
  replay_one s (act (dismiss_toast toast_id)) = record {
    shown = Option.map (close toast_id) s.shown;
    runs = dismissed s.runs toast_id s.shown;
  }
  replay_one s (act (remove_toast none)) = record s { shown = none }
  replay_one s (act (remove_toast (some id))) = record s { shown = unless_id id s.shown }
  replay_one s (tick id) = record {
    shown = unless_id id s.shown;
    runs = λ other. s.runs other && not (str_eq other id);
  }

  unfoldable pub replay : List (Event R) → Slot R → Slot R
  replay [] s = s
  replay (e ∷ events) s = replay events (replay_one s e)

  abbrev pub first : List (ToasterToast R) → Option (ToasterToast R)
  first [] = none
  first (t ∷ _) = some t

  abbrev pub slot_of : ToastState R → Slot R
  slot_of s = record { shown = first s.toasts; runs = has s.timeouts }

has-filter-not :
    (id other : Str) (ids : List Str)
    → has (filter (λ o. not (str_eq o id)) ids) other ≡ (has ids other && not (str_eq other id))
unfolding has
has-filter-not id other [] = refl
has-filter-not id other (x ∷ xs) =
    ground
      (arith, has-filter-not id other xs, str_eq_iff x other, str_eq_iff x id, str_eq_iff other id)

module _ {R : Type 0} where
  same_slot : {s s' : Slot R} → s.shown ≡ s'.shown → ((o : Str) → s.runs o ≡ s'.runs o) → s ≡ s'
  same_slot e h = ap₂ {C = Slot R} (λ a b. record { shown = a; runs = b }) e (fun_ext h)

  -- The toast of an id is dropped.
  without_one :
      (t : ToasterToast R) (is_it : Bool)
      → let left : List (ToasterToast R) = if not is_it then t ∷ [] else [] in
        (length left ≤ 1) × (first left ≡ (if is_it then none else some t))
  without_one t true = (omega arith, refl)
  without_one t false = (omega arith, refl)

  queued_one :
      (shown : Option (ToasterToast R)) (ids : List Str) (id o : Str) (is_empty : Bool)
      → has (if is_empty then elim shown [ none ↦ ids | some t ↦ add ids t.id ] else add ids id) o
        ≡ (if is_empty then start_shown (has ids) shown o else start (has ids) id o)
  queued_one none ids id o true = refl
  queued_one (some t) ids id o true = has-add ids t.id o
  queued_one shown ids id o false = has-add ids id o

  happen-refines :
      (ts : List (ToasterToast R)) (ids : List Str) (e : Event R)
      → length ts ≤ 1
      → let s : ToastState R = record { toasts = ts; timeouts = ids } in
        (length (happen s e).toasts ≤ 1) × (slot_of (happen s e) ≡ replay_one (slot_of s) e)
  unfolding happen replay_one queue add_to_remove_queue
  happen-refines ts ids (act (add_toast t)) h = (omega arith, refl)
  happen-refines [] ids (act (update_toast u)) h = (h, refl)
  happen-refines (t ∷ []) ids (act (update_toast u)) h = (omega arith, refl)
  happen-refines [] ids (act (dismiss_toast none)) h = (h, refl)
  happen-refines (t ∷ []) ids (act (dismiss_toast none)) h =
      (omega arith, same_slot refl (λ o. has-add ids t.id o))
  happen-refines [] ids (act (dismiss_toast (some id))) h =
      (h, same_slot refl (λ o. queued_one none ids id o (str_eq id [])))
  happen-refines (t ∷ []) ids (act (dismiss_toast (some id))) h =
      (omega arith, same_slot refl (λ o. queued_one (some t) ids id o (str_eq id [])))
  happen-refines ts ids (act (remove_toast none)) h = (omega arith, refl)
  happen-refines [] ids (act (remove_toast (some id))) h = (h, refl)
  happen-refines (t ∷ []) ids (act (remove_toast (some id))) h =
      let (short, left) = without_one t (str_eq t.id id) in (short, same_slot left (λ o. refl))
  happen-refines [] ids (tick id) h = (h, same_slot refl (λ o. has-filter-not id o ids))
  happen-refines (t ∷ []) ids (tick id) h =
      let (short, left) = without_one t (str_eq t.id id) in
      (short, same_slot left (λ o. has-filter-not id o ids))
  happen-refines (t ∷ u ∷ ts) ids e h = absurd (omega arith)

-- From a state with at most one toast, every run of actions and timers, in any order, ends with at
-- most one toast, and what is shown and which timers run is what the same run does to the slot.
pub run-refines :
    {R : Type 0} (events : List (Event R)) (s : ToastState R)
    → length s.toasts ≤ 1
    → (length (run events s).toasts ≤ 1) × (slot_of (run events s) ≡ replay events (slot_of s))
unfolding run replay
run-refines [] s h = (h, refl)
run-refines (e ∷ events) s h =
    let (short, step) = happen-refines s.toasts s.timeouts e h in
    let (all_short, same) = run-refines events (happen s e) short in
    (all_short, same ∙ ap (replay events) step)
