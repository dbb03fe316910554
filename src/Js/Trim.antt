-- ===== src/Js/Trim.antt =====
-- What `trim` leaves of a text.
use mcp_project_server.Prelude.{
  length, ◌≤◌, ◌+◌, if◌then◌else◌, if-cases, ℕ, ◌≡◌, refl, ap, ◌∙◌, Bool, false, [], ◌∷◌, arith,
}
use mcp_project_server.Js.Str.{Str, trim, trim_start, trim_end, is_space}

-- A text that stands without blanks at its ends.
unfoldable pub IsTrimmed : Str → Type 0
unfolding trim
IsTrimmed s = trim s ≡ s

-- A text that is empty or begins with no blank.
abbrev Begins : (ℕ → Bool) → Str → Type 0
Begins p [] = Unit {0}
Begins p (c ∷ s) = p c ≡ false

trim_start-Begins : (p : ℕ → Bool) (s : Str) → Begins p (trim_start p s)
unfolding trim_start
trim_start-Begins p [] = tt
trim_start-Begins p (c ∷ s) =
    if-cases (Begins p) (p c) (λ blank. trim_start-Begins p s) (λ other. other)

trim_start_id : (p : ℕ → Bool) (s : Str) → Begins p s → trim_start p s ≡ s
unfolding trim_start
trim_start_id p [] b = refl
trim_start_id p (c ∷ s) b = ground arith

-- One more code unit in front of the text that `trim_end` leaves.
abbrev in_front : (ℕ → Bool) → ℕ → Str → Str
in_front p c [] = if p c then [] else c ∷ []
in_front p c (d ∷ r) = c ∷ d ∷ r

in_front-Begins : (p : ℕ → Bool) (c : ℕ) (r : Str) → p c ≡ false → Begins p (in_front p c r)
in_front-Begins p c [] b = rw b b
in_front-Begins p c (d ∷ r) b = b

trim_end-Begins : (p : ℕ → Bool) (s : Str) → Begins p s → Begins p (trim_end p s)
unfolding trim_end
trim_end-Begins p [] b = tt
trim_end-Begins p (c ∷ s) b = in_front-Begins p c (trim_end p s) b

trim_end-in_front :
    (p : ℕ → Bool) (c : ℕ) (r : Str)
    → trim_end p r ≡ r
    → trim_end p (in_front p c r) ≡ in_front p c r
unfolding trim_end
trim_end-in_front p c [] e =
    if-cases (λ t. trim_end p t ≡ t) (p c) (λ blank. refl) (λ other. rw other refl)
trim_end-in_front p c (d ∷ r) e = rw e refl

trim_end-trim_end : (p : ℕ → Bool) (s : Str) → trim_end p (trim_end p s) ≡ trim_end p s
unfolding trim_end
trim_end-trim_end p [] = refl
trim_end-trim_end p (c ∷ s) = trim_end-in_front p c (trim_end p s) (trim_end-trim_end p s)

-- Trimming a second time changes nothing.
pub trim-IsTrimmed : (s : Str) → IsTrimmed (trim s)
unfolding IsTrimmed trim
trim-IsTrimmed s =
    let start = trim_start is_space s in
    ap (trim_end is_space) (
      trim_start_id is_space (trim_end is_space start)
        (trim_end-Begins is_space start (trim_start-Begins is_space s)))
    ∙ trim_end-trim_end is_space start

length-trim_start : (p : ℕ → Bool) (s : Str) → length (trim_start p s) ≤ length s
unfolding trim_start
length-trim_start p [] = omega arith
length-trim_start p (c ∷ s) = ground (arith, length-trim_start p s)

length-in_front : (p : ℕ → Bool) (c : ℕ) (r : Str) → length (in_front p c r) ≤ length r + 1
length-in_front p c [] = ground arith
length-in_front p c (d ∷ r) = ground arith

length-trim_end : (p : ℕ → Bool) (s : Str) → length (trim_end p s) ≤ length s
unfolding trim_end
length-trim_end p [] = omega arith
length-trim_end p (c ∷ s) =
    let front = length-in_front p c (trim_end p s) in let rest = length-trim_end p s in ground arith

-- Trimming makes no text longer.
pub length-trim : (s : Str) → length (trim s) ≤ length s
unfolding trim
length-trim s =
    let front = length-trim_start is_space s in
    let back = length-trim_end is_space (trim_start is_space s) in omega arith
