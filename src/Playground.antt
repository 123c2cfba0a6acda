-- ===== src/Playground.antt =====
-- internal/frontend/playground/playground.go: which browser origins may open a WebSocket, and what a
-- turn writes to it. The port, the HTTP server and the connection are in the modules below.
pub mod Origins
pub mod Frames
pub mod Port
pub mod Connection
pub mod Http
use Prim.Native.Char.{Char, code}
use crated.Prelude.{
  ℕ, Bool, true, false, ◌||◌, ◌&&◌, not, String, List, [], ◌∷◌, Option, none, some, Error, Result,
  ok, err, Yield, if◌then◌else◌, ◌==◌, eqb,
}
use crated.Prelude.Text.{◌<>◌, trim_left, trim_right}
use crated.Frontend.{Event, Usage, AdkEvent, no_usage, chat}

-- The blanks of `trimSpace`, which looks at bytes; both are ASCII, as the comma is.
abbrev pub is_blank : Char → Bool
is_blank c = eqb (code c) 32 || eqb (code c) 9

-- `trimSpace`
unfoldable pub trim : String → String
unfolding trim_left trim_right
trim s = trim_right is_blank (trim_left is_blank s)

-- The loop of `splitComma`, with the part from `start` up to here.
unfoldable pub split_from : String → String → List String
split_from part String.[] = part ∷ []
split_from part (String.◌∷◌ c s) =
    if eqb (code c) b',' then part ∷ split_from "" s else split_from (part <> String.◌∷◌ c "") s

-- `splitComma`
unfoldable pub split_comma : String → List String
unfolding split_from
split_comma s = split_from "" s

abbrev pub trimmed_parts : List String → List String
unfolding trim
trimmed_parts [] = []
trimmed_parts (part ∷ parts) =
    let rest = trimmed_parts parts in if trim part == "" then rest else trim part ∷ rest

-- `splitOrigins`
unfoldable pub split_origins : String → List String
unfolding split_comma trim
split_origins s = trimmed_parts (split_comma s)

-- allowed[origin]
unfoldable pub listed : String → List String → Bool
listed o [] = false
listed o (p ∷ ps) = p == o || listed o ps

-- The origins that `newUpgrader` puts in its set, for this ALLOWED_ORIGINS and port.
unfoldable pub allowed : String → String → List String
unfolding split_origins
allowed env_origins port =
    if env_origins == ""
    then ("http://localhost:" <> port) ∷ ("http://127.0.0.1:" <> port) ∷ []
    else split_origins env_origins

-- `CheckOrigin` of the upgrader.
unfoldable pub check_origin : String → String → String → Bool
unfolding allowed listed
check_origin env_origins port origin =
    if origin == "" then true else listed origin (allowed env_origins port)

-- `wsOutgoing`
pub record WsOutgoing : Type 0 where
  pub type : String
  pub text : String
  pub tools : List String
  pub usage : Usage

abbrev pub outgoing : String → WsOutgoing
outgoing type = record { type = type; text = ""; tools = []; usage = no_usage }

abbrev pub usage_or_none : Option Usage → Usage
usage_or_none none = no_usage
usage_or_none (some u) = u

-- `writeJSON` on the connection `C` is `write`, `some` its error; err.Error() is `message`.
module _ {C : Type 0} (write : C → WsOutgoing → C × Option Error) (message : Error → String) where
  -- Goes on only behind a write that did not fail.
  abbrev pub written : C × Option Error → (C → C × Bool) → C × Bool
  written (c, none) f = f c
  written (c, some e) f = (c, false)

  abbrev pub write_done : Event → C → C × Bool
  write_done event c =
      if event.is_final
      then ((write c (record (outgoing "done") { usage = usage_or_none event.usage })).0, true)
      else (c, true)

  abbrev pub write_text : Event → C → C × Bool
  write_text event c =
      if not (event.text == "")
      then written (write c (record (outgoing "text") { text = event.text })) (write_done event)
      else write_done event c

  -- The loop's body of `streamChat`.
  abbrev pub on_event : Yield C (Result Event)
  on_event c (err e) = ((write c (record (outgoing "error") { text = message e })).0, false)
  on_event c (ok event) = elim event.tool_calls [
    | [] ↦ write_text event c
    | call ∷ calls ↦
        written (write c (record (outgoing "tool_call") { tools = call ∷ calls }))
          (write_text event)
  ]

  -- `streamChat`, for the items of the runner.
  unfoldable pub stream_chat : List (Result AdkEvent) → C → C
  unfolding chat
  stream_chat items c = (chat on_event items c).0.0
