-- ===== src/Toasts/Reach.antt =====
-- What holds of the toasts in every run: actions and expiring timers in any order.
use mcp_project_server.Prelude.{
  length-map, ◌≤◌, ◌≡◌, Bool, true, false, not, Option, none, some, List, [], ◌∷◌, foldl, filter,
  length, arith, if-both,
}
use mcp_project_server.Js.Str.{Str, str_eq}
use mcp_project_server.Js.Set.{has, add, Distinct, add-Distinct}
use mcp_project_server.Toasts.{
  ToasterToast, ToastState, Action, add_toast, update_toast, dismiss_toast, remove_toast, reducer,
  expire, queue, update, close, add_to_remove_queue,
}

length-filter : {A : Type 0} (p : A → Bool) (xs : List A) → length (filter p xs) ≤ length xs
length-filter p [] = ground arith
length-filter p (x ∷ xs) = ground (arith, length-filter p xs)

has-filter :
    (p : Str → Bool) (xs : List Str) (s : Str) → has xs s ≡ false → has (filter p xs) s ≡ false
unfolding has
has-filter p [] s h = h
has-filter p (x ∷ xs) s h = ground (arith, has-filter p xs s)

filter-Distinct : (p : Str → Bool) (xs : List Str) → Distinct xs → Distinct (filter p xs)
filter-Distinct p [] d = tt
filter-Distinct p (x ∷ xs) d =
    if-both Distinct (p x) (has-filter p xs x d.0, filter-Distinct p xs d.1)
      (filter-Distinct p xs d.1)

module _ {R : Type 0} where
  abbrev pub no_toasts : ToastState R
  no_toasts = record { toasts = []; timeouts = [] }

  -- The states that a run can reach: it dispatches an action, or a timer that runs expires.
  pub data Reachable : ToastState R → Type 0 where
    start : Reachable no_toasts
    act : {s : ToastState R} → Reachable s → (a : Action R) → Reachable (reducer s a)
    tick :
        {s : ToastState R}
        → Reachable s
        → (id : Str) → has s.timeouts id ≡ true
        → Reachable (expire s id)

  -- One toast at most, and one timer at most for each toast.
  pub record IsWithinLimit (s : ToastState R) : Type 0 where
    pub toasts : length s.toasts ≤ 1
    pub timeouts : Distinct s.timeouts

  queue_all-Distinct :
      (toasts : List (ToasterToast R)) (ids : List Str)
      → Distinct ids
      → Distinct (foldl (λ ids t. add_to_remove_queue ids t.id) ids toasts)
  unfolding add_to_remove_queue
  queue_all-Distinct [] ids d = d
  queue_all-Distinct (t ∷ ts) ids d = queue_all-Distinct ts (add ids t.id) (add-Distinct ids t.id d)

  queue-Distinct :
      (toast_id : Option Str) (toasts : List (ToasterToast R)) (ids : List Str)
      → Distinct ids
      → Distinct (queue toast_id toasts ids)
  unfolding queue add_to_remove_queue
  queue-Distinct none toasts ids d = queue_all-Distinct toasts ids d
  queue-Distinct (some id) toasts ids d =
      if-both Distinct (str_eq id []) (queue_all-Distinct toasts ids d) (add-Distinct ids id d)

  reducer-IsWithinLimit :
      (s : ToastState R) (a : Action R) → IsWithinLimit s → IsWithinLimit (reducer s a)
  unfolding reducer
  reducer-IsWithinLimit s (add_toast t) h = record { toasts = ground arith; timeouts = h.timeouts }
  reducer-IsWithinLimit s (update_toast u) h = record {
    toasts = ground (arith, length-map s.toasts (update u), h.toasts);
    timeouts = h.timeouts;
  }
  reducer-IsWithinLimit s (dismiss_toast toast_id) h = record {
    toasts = ground (arith, length-map s.toasts (close toast_id), h.toasts);
    timeouts = queue-Distinct toast_id s.toasts s.timeouts h.timeouts;
  }
  reducer-IsWithinLimit s (remove_toast none) h = record {
    toasts = ground arith;
    timeouts = h.timeouts;
  }
  reducer-IsWithinLimit s (remove_toast (some id)) h = record {
    toasts =
        ground
          (arith, length-filter (λ (t : ToasterToast R). not (str_eq t.id id)) s.toasts, h.toasts);
    timeouts = h.timeouts;
  }

  -- In every run at most one toast is shown, and no toast has two timers.
  pub Reachable-IsWithinLimit : (s : ToastState R) → Reachable s → IsWithinLimit s
  unfolding expire
  Reachable-IsWithinLimit s start = record { toasts = ground arith; timeouts = tt }
  Reachable-IsWithinLimit s (act r a) = reducer-IsWithinLimit _ a (Reachable-IsWithinLimit _ r)
  Reachable-IsWithinLimit s (tick {s = before} r id runs) =
      let h = Reachable-IsWithinLimit before r in
      reducer-IsWithinLimit _ (remove_toast (some id))
        (record { toasts = h.toasts; timeouts = filter-Distinct _ before.timeouts h.timeouts })
