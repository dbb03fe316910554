-- ===== src/Toasts/Tests.antt =====
-- A run with two toasts, one of them dismissed.
use mcp_project_server.Prelude.{◌≤◌, length, ℕ, ◌≡◌, ◌≢◌, refl, true, none, some, [], ◌∷◌, arith}
use mcp_project_server.Js.Str.{Str, codes, str_eq}
use mcp_project_server.Js.Set.{has, add}
use mcp_project_server.Toasts.{
  ToasterToast, ToastState, add_toast, dismiss_toast, reducer, expire, queue, add_to_remove_queue,
}
use mcp_project_server.Toasts.Calls.{ToastProps}
use mcp_project_server.Toasts.SingleSlot.{run, replay, slot_of, tick, run-refines}
use mcp_project_server.Toasts.Reach.{
  no_toasts, Reachable, start, act, tick, IsWithinLimit, Reachable-IsWithinLimit,
}

abbrev sample : Str → ToasterToast ℕ
sample id = record { id = id; title = some 7; description = none; action = none; open_ = some true }

abbrev one : ToastState ℕ
one = reducer no_toasts (add_toast (sample (codes "1")))

abbrev dismissed : ToastState ℕ
dismissed = reducer one (dismiss_toast (some (codes "1")))

abbrev two : ToastState ℕ
two = reducer dismissed (add_toast (sample (codes "2")))

timer_runs : has two.timeouts (codes "1") ≡ true
unfolding reducer queue add_to_remove_queue add has str_eq
timer_runs = refl

two-Reachable : Reachable two
two-Reachable =
    act (act (act start (add_toast (sample (codes "1")))) (dismiss_toast (some (codes "1"))))
      (add_toast (sample (codes "2")))

-- The new toast takes the place of the old one, whose timer then finds nothing to remove.
expired_keeps : (expire two (codes "1")).toasts ≡ sample (codes "2") ∷ []
unfolding expire reducer str_eq
expired_keeps = refl

Reachable-IsWithinLimit_example : IsWithinLimit (expire two (codes "1"))
Reachable-IsWithinLimit_example =
    Reachable-IsWithinLimit (expire two (codes "1")) (tick two-Reachable (codes "1") timer_runs)

one-nonempty : codes "1" ≢ []
one-nonempty e = ground arith

abbrev show_one : ℕ → Str
show_one n = codes "1"

abbrev props : ToastProps ℕ
props = record { title = some 7; description = none; action = none }

run-refines_example :
    (length (run (tick (codes "1") ∷ []) two).toasts ≤ 1)
    × (slot_of (run (tick (codes "1") ∷ []) two) ≡ replay (tick (codes "1") ∷ []) (slot_of two))
unfolding reducer
run-refines_example = run-refines (tick (codes "1") ∷ []) two (omega arith)
