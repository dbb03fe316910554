-- ===== src/Claims/History.antt =====
-- The stored tokens over a history of answers.
use mcp_project_server.Prelude.{
  ◌≡◌, ◌≢◌, refl, ap, ◌∙◌, Bool, true, false, not, ◌&&◌, Option, none, some, List, [], ◌∷◌, All,
  if◌then◌else◌, if-cases, arith,
}
use mcp_project_server.Js.Str.{Str, str_eq, str_eq_iff}
use mcp_project_server.Js.Map.{Map, get, put, delete, get-put, get-delete}
use mcp_project_server.Claims.{
  Storage, token_key, get_stored_token, set_stored_token, clear_stored_token, Panel, Answer,
  claimed, extended, status_set, released, completed, claim_failed, call_failed, answered,
  handle_planning_error, is_conflict, Failure,
}

-- Answers about tasks, in the order in which they come.
unfoldable pub run : List (Str × Answer) → Panel → Panel
unfolding answered
run [] panel = panel
run ((task_id, answer) ∷ answers) panel = run answers (answered panel task_id answer)

-- What an answer about a task makes of its token.
unfoldable pub held_after : Answer → Option Str → Option Str
held_after (claimed token) held = some token
held_after extended held = held
held_after status_set held = held
held_after released held = none
held_after completed held = none
held_after (claim_failed failure) held = if is_conflict failure then none else held
held_after (call_failed failure) held = if is_conflict failure then none else held

-- The token of one task, by the answers about that task alone.
unfoldable pub held : Str → List (Str × Answer) → Option Str → Option Str
held task_id [] token = token
held task_id ((other, answer) ∷ answers) token =
    held task_id answers (if str_eq other task_id then held_after answer token else token)

str_eq-token_key : (a b : Str) → str_eq (token_key a) (token_key b) ≡ str_eq a b
unfolding token_key str_eq
str_eq-token_key a b = refl

-- What stands in the storage after an answer.
record Keeps (storage : Storage) (other : Str) (answer : Answer) (items : Map Str) : Type 0 where
  pub after : Map Str
  pub stored : storage ≡ some after
  pub tokens :
      (id : Str)
      → get after (token_key id) ≡ (
          if str_eq other id
          then held_after answer (get items (token_key id))
          else get items (token_key id))

if-same : {A : Type 0} (b : Bool) (x : A) → x ≡ (if b then x else x)
if-same true x = refl
if-same false x = refl

kept :
    (other : Str) (answer : Answer) (items : Map Str)
    → ((o : Option Str) → held_after answer o ≡ o)
    → Keeps (some items) other answer items
kept other answer items same = record {
  after = items;
  stored = refl;
  tokens = λ id.
      rw (same (get items (token_key id))) (if-same (str_eq other id) (get items (token_key id)));
}

cleared :
    (other : Str) (answer : Answer) (items : Map Str)
    → ((o : Option Str) → held_after answer o ≡ none)
    → Keeps (clear_stored_token (some items) other) other answer items
unfolding clear_stored_token token_key str_eq
cleared other answer items gone = record {
  after = delete items (token_key other);
  stored = refl;
  tokens = λ id.
      rw (gone (get items (token_key id))) (get-delete items (token_key other) (token_key id));
}

failed :
    (other : Str) (answer : Answer) (items : Map Str) (failure : Failure)
    → other ≢ []
    → ((o : Option Str) → held_after answer o ≡ (if is_conflict failure then none else o))
    → Keeps (handle_planning_error failure other (some items)) other answer items
unfolding handle_planning_error
failed other answer items failure named after =
    if-cases (λ s. Keeps s other answer items) (is_conflict failure && not (str_eq other []))
      (λ conflict.
        cleared other answer items
          (λ o. let c : is_conflict failure ≡ true = ground arith in rw c at (after o)))
      (λ calm. kept other answer items (λ o.
        let k : is_conflict failure ≡ false = ground (arith, str_eq_iff other []) in
        rw k at (after o)))

stored_now :
    (panel next : Panel) (items : Map Str) (other : Str) (answer : Answer) (id : Str)
    → panel.storage ≡ some items
    → Keeps next.storage other answer items
    → get_stored_token next.storage id ≡ (
        if str_eq other id
        then held_after answer (get_stored_token panel.storage id)
        else get_stored_token panel.storage id)
unfolding get_stored_token
stored_now panel next items other answer id e keeps = rw (keeps.stored, e) (keeps.tokens id)

answered-Keeps :
    (panel : Panel) (other : Str) (answer : Answer) (items : Map Str)
    → other ≢ []
    → panel.storage ≡ some items
    → Keeps (answered panel other answer).storage other answer items
unfolding answered held_after set_stored_token token_key str_eq
answered-Keeps panel other (claimed token) items named e = rw e (record {
  after = put items (token_key other) token;
  stored = refl;
  tokens = λ id. get-put items (token_key other) (token_key id) token;
})
answered-Keeps panel other extended items named e = rw e (kept other extended items (λ o. refl))
answered-Keeps panel other status_set items named e = rw e (kept other status_set items (λ o. refl))
answered-Keeps panel other released items named e = rw e (cleared other released items (λ o. refl))
answered-Keeps panel other completed items named e =
    rw e (cleared other completed items (λ o. refl))
answered-Keeps panel other (claim_failed failure) items named e =
    rw e (failed other (claim_failed failure) items failure named (λ o. refl))
answered-Keeps panel other (call_failed failure) items named e =
    rw e (failed other (call_failed failure) items failure named (λ o. refl))

-- Where the browser's storage works, the token that is stored for a task after any answers about
-- any tasks, whose ids are not empty, is the one that the answers about this task alone leave: the
-- last claim's, unless a release, a completion or a conflict came after it.
pub run-held :
    (answers : List (Str × Answer)) (panel : Panel) (items : Map Str) (task_id : Str)
    → All (λ a. a.0 ≢ []) answers
    → panel.storage ≡ some items
    → get_stored_token (run answers panel).storage task_id
      ≡ held task_id answers (get_stored_token panel.storage task_id)
unfolding run held
run-held [] panel items task_id named e = refl
run-held ((other, answer) ∷ answers) panel items task_id (name, named) e =
    let step = answered-Keeps panel other answer items name e in
    run-held answers (answered panel other answer) step.after task_id named step.stored
    ∙ ap (held task_id answers)
        (stored_now panel (answered panel other answer) items other answer task_id e step)
