-- ===== src/Toasts/Dismiss.antt =====
-- The life of a dismissed toast: closed at once, removed when its timer expires.
use mcp_project_server.Prelude.{
  Bool-cases, inl, inr, ◌≡◌, ◌≢◌, refl, true, false, not, some, List, [], ◌∷◌, map, filter, All,
  arith,
}
use mcp_project_server.Js.Str.{Str, str_eq, str_eq_iff, str_eq_refl}
use mcp_project_server.Js.Set.{has, has-add}
use mcp_project_server.Toasts.{
  ToasterToast, ToastState, dismiss_toast, reducer, expire, queue, close, add_to_remove_queue,
}

filter_stopped :
    (id : Str) (ids : List Str) → has (filter (λ other. not (str_eq other id)) ids) id ≡ false
unfolding has
filter_stopped id [] = refl
filter_stopped id (x ∷ xs) = ground (arith, filter_stopped id xs)

module _ {R : Type 0} where
  closed :
      (id : Str) (ts : List (ToasterToast R))
      → All (λ t. t.id ≡ id → t.open_ ≡ some false) (map (close (some id)) ts)
  unfolding close
  closed id [] = tt
  closed id (t ∷ ts) = (ground (arith, str_eq_iff t.id id), closed id ts)

  -- A dismissed toast is closed, its timer runs, and when the timer expires the toast is gone and
  -- so is its timer.
  pub record IsDismissed (s : ToastState R) (id : Str) : Type 0 where
    pub closed : All (λ t. t.id ≡ id → t.open_ ≡ some false) s.toasts
    pub runs : has s.timeouts id ≡ true
    pub gone : All (λ t. t.id ≢ id) (expire s id).toasts
    pub stopped : has (expire s id).timeouts id ≡ false

  filter_gone :
      (id : Str) (ts : List (ToasterToast R))
      → All (λ t. t.id ≢ id) (filter (λ t. not (str_eq t.id id)) ts)
  filter_gone id [] = tt
  filter_gone id (t ∷ ts) = elim (Bool-cases (str_eq t.id id)) [
    | inl same ↦ rw same (filter_gone id ts)
    | inr other ↦ rw other (λ e. ground (arith, str_eq_iff t.id id), filter_gone id ts)
  ]

  -- Dismissing a toast by its id, which is not empty, closes it and starts its timer; when the
  -- timer expires, the toast and the timer are gone.
  pub dismiss-IsDismissed :
      (s : ToastState R) (id : Str) → id ≢ [] → IsDismissed (reducer s (dismiss_toast (some id))) id
  unfolding reducer expire queue add_to_remove_queue
  dismiss-IsDismissed s id nonempty = record {
    closed = closed id s.toasts;
    runs = ground (arith, has-add s.timeouts id id, str_eq_refl id, str_eq_iff id []);
    gone = filter_gone id _;
    stopped = filter_stopped id (reducer s (dismiss_toast (some id))).timeouts;
  }
