-- ===== src/Repl/Returning.antt =====
-- When the loop of internal/frontend/repl/repl.go returns, and what the agent was asked by then.
use crated.Prelude.{
  Bool, true, false, ◌&&◌, not, String, List, [], ◌∷◌, ◌++◌, Error, Result, if◌then◌else◌, ◌==◌,
  ◌≡◌, ◌⊎◌, refl, arith, inl, inr, Bool-cases,
}
use crated.Prelude.Text.{trim_space}
use crated.Frontend.{AdkEvent}
use crated.Repl.{Input, Round, Ending, line, eof, broken, running, returned, is_exit, turn, run}

-- A round behind which the loop goes on: the context is not canceled before its prompt, and a line is
-- read that is no exit command. A context that is canceled while the line is read is noticed only before
-- the next prompt.
abbrev pub is_last : Input → Bool
is_last (line text) = is_exit text
is_last eof = true
is_last (broken e) = true

abbrev pub goes_on : Round → Bool
goes_on r = not r.canceled && not (is_last r.input)

-- No round is the last.
abbrev pub waits : List Round → Bool
waits [] = true
waits (r ∷ rounds) = goes_on r && waits rounds

abbrev pub is_running : Ending → Bool
is_running running = true
is_running (returned e) = false

Input-cases :
    (i : Input) → ((text : String) × (i ≡ line text)) ⊎ (i ≡ eof) ⊎ ((e : Error) × (i ≡ broken e))
Input-cases (line text) = inl (text, refl)
Input-cases eof = inr (inl refl)
Input-cases (broken e) = inr (inr (e, refl))

-- The lines for the agent: trimmed, and none that is blank.
abbrev pub line_of : Input → List String
line_of (line text) = if trim_space text == "" then [] else trim_space text ∷ []
line_of eof = []
line_of (broken e) = []

-- Those up to the first round that is the last.
abbrev pub asked : List Round → List String
asked [] = []
asked (r ∷ rounds) = let rest = asked rounds in if goes_on r then line_of r.input ++ rest else []

module _ {W : Type 0} (message : Error → String)
    (agent : W → String → W × List (Result AdkEvent)) where
  abbrev pub agent_after : W → List String → W
  agent_after w [] = w
  agent_after w (text ∷ texts) = agent_after (agent w text).0 texts

  -- The loop returns in the first round before whose prompt the context is canceled, or in which a
  -- read fails or an exit command comes, and not before: a line that is read once the context has
  -- been canceled still goes to the agent. By then the agent has been asked exactly the lines in
  -- between that are not blank.
  pub run_returns :
      (rounds : List Round) (w : W) (printed : List String)
      → (is_running (run message agent rounds w printed).2 ≡ waits rounds)
        × ((run message agent rounds w printed).0 ≡ agent_after w (asked rounds))
  unfolding run turn
  run_returns [] w printed = (refl, refl)
  run_returns (r ∷ rounds) w printed = elim (Bool-cases r.canceled) [
    | inl canceled ↦ ground (arith, canceled)
    | inr open_still ↦ elim (Input-cases r.input) [
      | inl (text, given) ↦
          let before = printed ++ "\nUser -> " ∷ [] in
          let (v, after) = turn message agent w before (trim_space text) in
          ground (arith, open_still, given, run_returns rounds w before, run_returns rounds v after)
      | inr (inl ended) ↦ ground (arith, open_still, ended)
      | inr (inr (e, failed)) ↦ ground (arith, open_still, failed)
    ]
  ]
