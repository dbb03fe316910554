-- ===== src/Fetch/Message.antt =====
-- How long the messages of errors are.
use mcp_project_server.Prelude.{
  [], ℕ, ◌≤◌, ◌<◌, ◌+◌, ◌-◌, ◌++◌, length, length-append, length-take, take, arith, if-cases,
  if-both, ltb,
}
use mcp_project_server.Js.Str.{Str, codes, trim, str_eq}
use mcp_project_server.Js.Json.{Json}
use mcp_project_server.Fetch.Media.{Response, text, json}
use mcp_project_server.Fetch.Errors.{truncate, build_error_message, message_of_text, message_prefix}

length-truncate : (s : Str) (max : ℕ) → 0 < max → length (truncate s max) ≤ max
unfolding truncate
length-truncate s max positive =
    if-cases (λ (t : Str). length t ≤ max) (ltb max (length s))
      (λ long. omega (arith, length-append (take (max - 1) s) (codes "…"), length-take (max - 1) s))
      (λ short. ground arith)

length-message_of_text : (prefix s : Str) → length (message_of_text prefix s) ≤ length prefix + 302
unfolding message_of_text
length-message_of_text prefix s =
    if-both (λ (t : Str). length t ≤ length prefix + 302) (str_eq (trim s) []) (omega arith)
      (omega (
        arith,
        length-append prefix (codes ": " ++ truncate (trim s) 300),
        length-append (codes ": ") (truncate (trim s) 300),
        length-truncate (trim s) 300 (omega arith),
      ))

-- The message of an error with a text as its body, as it is or as a string of JSON, is at most 302
-- code units longer than the part with the status.
pub length-build_error_message :
    (N : Type 0) {B : Type 0} (show : ℕ → Str) (response : Response B) (s : Str)
    → (length (build_error_message {N = N} show response (text s))
        ≤ length (message_prefix show response) + 302)
      × (length (build_error_message {N = N} show response (json (Json.string s)))
          ≤ length (message_prefix show response) + 302)
unfolding build_error_message
length-build_error_message N show response s =
    let bound = length-message_of_text (message_prefix show response) s in (bound, bound)
