-- ===== src/Claims/Tests.antt =====
-- Claims of two tasks.
use mcp_project_server.Prelude.{◌≡◌, refl, none, some, List, [], ◌∷◌}
use mcp_project_server.Js.Str.{Str, codes, str_eq}
use mcp_project_server.Js.Map.{get}
use mcp_project_server.Claims.{
  Panel, Answer, claimed, extended, call_failed, with_token, get_stored_token,
}
use mcp_project_server.Claims.History.{run, held, run-held}

abbrev panel : Panel
panel = record {
  storage = some [];
  claim_target = some (codes "a");
  busy = none;
  token_version = 0;
}

abbrev answers : List (Str × Answer)
answers =
    (codes "a", claimed (codes "t"))
    ∷ (codes "b", claimed (codes "u"))
    ∷ (codes "a", extended)
    ∷ (codes "b", call_failed (some 409))
    ∷ []

sent_token : (with_token (run answers panel) (codes "a")).1 ≡ some (codes "t")
unfolding with_token run str_eq get
sent_token = refl

-- After the conflict the call is not made.
nothing_sent : with_token (run answers panel) (codes "b") ≡ (run answers panel, none)
unfolding with_token run str_eq get
nothing_sent = refl

run-held_example :
    get_stored_token (run answers panel).storage (codes "a")
    ≡ held (codes "a") answers (get_stored_token panel.storage (codes "a"))
run-held_example =
    run-held answers panel [] (codes "a")
      (λ e. absurd (cc), (λ e. absurd (cc), (λ e. absurd (cc), (λ e. absurd (cc), tt)))) refl
