-- ===== src/Repl.antt =====
-- internal/frontend/repl/repl.go: the console frontend. The rounds of its loop are given by what
-- stdin and the context do in them; `W` is the state of the agent behind the bridge.
pub mod Printing
pub mod Returning
use Prim.Native.Char.{code}
use crated.Prelude.{
  ℕ, ◌+◌, ◌≤◌, Bool, true, false, ◌&&◌, ◌||◌, not, String, List, [], ◌∷◌, ◌++◌, Option, none, some,
  Error, wrapf, Result, ok, err, Yield, leb, eqb, if◌then◌else◌, ◌==◌,
}
use crated.Prelude.Text.{◌<>◌, trim_space}
use crated.Frontend.{Event, AdkEvent, chat}

-- What unicode.ToLower makes of an ASCII letter, and of U+0130, the only other letter that it turns
-- into one of ASCII besides the Kelvin sign, which no command has.
abbrev pub lower : ℕ → ℕ
lower c = if leb 65 c && leb c 90 then c + 32 else if eqb c 0x130 then 0x69 else c

-- strings.ToLower(s) == t, for a `t` of small ASCII letters.
unfoldable pub lowers_to : String → String → Bool
lowers_to String.[] String.[] = true
lowers_to String.[] (String.◌∷◌ d t) = false
lowers_to (String.◌∷◌ c s) String.[] = false
lowers_to (String.◌∷◌ c s) (String.◌∷◌ d t) = eqb (lower (code c)) (code d) && lowers_to s t

-- `exitCommands[trimmed]`
unfoldable pub is_exit : String → Bool
unfolding lowers_to trim_space
is_exit input =
    let trimmed = trim_space input in lowers_to trimmed "exit" || lowers_to trimmed "quit"

-- `prevText`, `prompted`, and what has been printed, one text for each call of fmt.Print.
pub record Console : Type 0 where
  pub prev_text : String
  pub prompted : Bool
  pub printed : List String

abbrev pub print : String → Console → Console
print t c = record c { printed = c.printed ++ t ∷ [] }

abbrev pub prompt : Event → Console → Console
prompt event c =
    if not (event.text == "") && not c.prompted
    then record (print "\nAgent -> " c) { prompted = true }
    else c

abbrev pub show : Event → Console → Console
show event c =
    if not event.is_final
    then record (print event.text c) { prev_text = c.prev_text <> event.text }
    else record (if not (event.text == c.prev_text) then print event.text c else c) {
      prev_text = "";
    }

-- The body of the loop over the turn's events; err.Error() is `message`.
unfoldable pub on_event : (Error → String) → Yield Console (Result Event)
on_event message c (err e) = (print ("\nERROR: " <> (message e <> "\n")) c, false)
on_event message c (ok event) = (show event (prompt event c), true)

-- What `ReadString` gives, and a round of the loop: whether the context is canceled before it, and
-- once it has returned.
pub data Input : Type 0 where
  line : String → Input
  eof : Input
  broken : Error → Input

pub record Round : Type 0 where
  pub canceled : Bool
  pub input : Input
  pub canceled_after : Bool

-- How `Run` ends, or that it is still in its loop behind the rounds.
pub data Ending : Type 0 where
  returned : Option Error → Ending
  running : Ending

module _ {W : Type 0} (message : Error → String)
    (agent : W → String → W × List (Result AdkEvent)) where
  -- A turn: `prevText` and `prompted` are new for each.
  unfoldable pub turn : W → List String → String → W × List String
  unfolding chat
  turn w printed text =
      let (v, items) = agent w text in
      (
        v,
        (chat (on_event message) items
            (record { prev_text = ""; prompted = false; printed = printed })).0.0.printed,
      )

  -- The loop of `Run`.
  unfoldable pub run : List Round → W → List String → W × List String × Ending
  unfolding is_exit turn
  run [] w printed = (w, printed, running)
  run (round ∷ rounds) w printed =
      if round.canceled then (w, printed, returned none) else elim round.input [
        | eof ↦ (w, printed ++ "\nUser -> " ∷ "\n" ∷ [], returned none)
        | broken e ↦ (
          w,
          printed ++ "\nUser -> " ∷ [],
          returned (if round.canceled_after then none else some (wrapf "reading stdin: %w" [] e)),
        )
        | line input ↦
            let asked = printed ++ "\nUser -> " ∷ [] in
            let skipped = run rounds w asked in
            let (v, answered) = turn w asked (trim_space input) in
            let later = run rounds v answered in
            if is_exit input
            then (w, asked, returned none)
            else if trim_space input == ""
            then skipped
            else later
      ]

  -- `Run`, for what CreateSession gave.
  unfoldable pub run_frontend :
      Result String → List Round → W → List String → W × List String × Ending
  unfolding run
  run_frontend created rounds w printed = elim created [
    | err e ↦ (w, printed, returned (some (wrapf "creating session: %w" [] e)))
    | ok session ↦ run rounds w printed
  ]
