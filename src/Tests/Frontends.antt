-- ===== src/Tests/Frontends.antt =====
-- The playground's port and connection, and the REPL's loop.
use crated.Prelude.{
  take, ℕ, ◌+◌, true, false, String, List, [], ◌∷◌, ◌++◌, none, some, Error, foreign, Result, ok,
  ◌≡◌, refl,
}
use crated.Prelude.Text.{after_prefix, trim_space, trim_left, trim_right}
use crated.Genai.{text_part}
use crated.Frontend.{AdkEvent}
use crated.Playground.{WsOutgoing, check_origin}
use crated.Playground.Frames.{push}
use crated.Playground.Port.{port_number, between, number, digits?, unsigned, port_number-value}
use crated.Playground.Connection.{Incoming, message, broken, read_loop}
use crated.Playground.Connection.Conversation.{asked, ends, answers, read_loop-answers}
use crated.Repl.{Round, line, eof, turn, run}
use crated.Repl.Returning as Returning
use crated.Repl.Returning.{is_running, waits, run_returns}

port_number-value_example : port_number "+03000" ≡ between (number (digits? (unsigned "+03000")))
port_number-value_example = port_number-value "+03000"

padded_accepted : port_number "+03000" ≡ some 3000
unfolding port_number crated.Playground.Port.atoi crated.Playground.Port.digits_from after_prefix
padded_accepted = refl

too_large : port_number "65536" ≡ none
unfolding port_number crated.Playground.Port.atoi crated.Playground.Port.digits_from after_prefix
too_large = refl

-- An agent that counts the questions, and repeats each.
abbrev echo : String → List (Result AdkEvent)
echo text =
    ok (record {
      content = some (record { role = "model"; parts = text_part text ∷ [] });
      usage_metadata = none;
      is_final = true;
      author = "crated";
    })
    ∷ []

abbrev agent : ℕ → String → String → String → ℕ × List (Result AdkEvent)
agent n user session text = (n + 1, echo text)

abbrev text_of : Error → String
text_of e = "error"

abbrev incoming : List Incoming
incoming =
    message (record { type = "message"; text = "hello" })
    ∷ message (record { type = "ping"; text = "x" })
    ∷ message (record { type = "message"; text = "" })
    ∷ message (record { type = "message"; text = "bye" })
    ∷ broken (foreign "closed")
    ∷ []

hello_bye : asked incoming ≡ "hello" ∷ "bye" ∷ []
hello_bye = refl

abbrev reset : Error
reset = foreign "connection reset"

-- The connection breaks behind three messages, within the second answer.
read_loop-answers_example :
    ((read_loop (push reset) text_of agent "anna" "s1" (0, ([], 3)) incoming).0.1.0
      ≡ [] ++ take 3 (answers text_of agent "anna" "s1" 0 (asked incoming)))
    × ((read_loop (push reset) text_of agent "anna" "s1" (0, ([], 3)) incoming).1 ≡ ends incoming)
read_loop-answers_example = read_loop-answers text_of agent "anna" "s1" reset 0 [] 3 incoming

abbrev round : String → Round
round text = record { canceled = false; input = line text; canceled_after = false }

abbrev rounds : List Round
rounds = round "hi\n" ∷ round "  \n" ∷ round "Quit\n" ∷ round "lost\n" ∷ []

abbrev repl_agent : ℕ → String → ℕ × List (Result AdkEvent)
repl_agent n text = (n + 1, echo text)

run_returns_example :
    (is_running (run text_of repl_agent rounds 0 []).2 ≡ waits rounds)
    × ((run text_of repl_agent rounds 0 []).0
        ≡ Returning.agent_after text_of repl_agent 0 (Returning.asked rounds))
run_returns_example = run_returns text_of repl_agent rounds 0 []

-- "Quit" ends it, and "lost" is not read.
hi_only : Returning.asked rounds ≡ "hi" ∷ []
unfolding crated.Repl.is_exit crated.Repl.lowers_to trim_space trim_left trim_right
hi_only = refl
