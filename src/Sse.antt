-- ===== src/Sse.antt =====
-- internal/sse/reader.go: the reader of server-sent events. `read` is `Read`, in the shape of the
-- code: a loop over the scanned lines that hands events to the consumer's loop body `yield`.
pub mod Scanner
pub mod Pull
mod Fields
pub mod RoundTrip
pub mod Delivery
use Scanner.{Stream, scan}
use crated.Prelude.{
  String, Bool, true, false, not, List, [], ◌∷◌, Option, none, some, Result, ok, err, Error, Yield,
  if◌then◌else◌, ◌==◌,
}
use crated.Prelude.Text.{◌<>◌, trim_space, has_prefix, trim_prefix}

-- `Event`: its `Type`, and its `Data`.
pub record Event : Type 0 where
  pub type : String
  pub payload : String

abbrev pub no_event : Event
no_event = record { type = ""; payload = "" }

-- `case strings.HasPrefix(line, "data:")`, on the trimmed data.
pub add_data : Event → String → Event
add_data event text =
    if not (event.payload == "")
    then record event { payload = event.payload <> ("\n" <> text) }
    else record event { payload = text }

-- The cases of the switch that only change the event.
pub add_field : Event → String → Event
unfolding add_data
add_field event line =
    if has_prefix line "event:"
    then record event { type = trim_space (trim_prefix line "event:") }
    else if has_prefix line "data:"
    then add_data event (trim_space (trim_prefix line "data:"))
    else event

module _ {ℓ} {S : Type ℓ} (yield : Yield S (Result Event)) where
  -- The event and the consumer's state after `if event.Data != "" { if !yield(…) … }`.
  flush : S → Event → Event × S × Bool
  flush s event =
      if event.payload == ""
      then (event, s, true)
      else let (s', more) = yield s (ok event) in (no_event, s', more)

  -- One round of `for scanner.Scan()`; false is `return`.
  pub scan_line : S → Event → String → Event × S × Bool
  unfolding flush
  scan_line s event line = if line == "" then flush s event else (add_field event line, s, true)

  -- What stands behind the loop: the pending event, then the scanner's error.
  finish : S → Event → Option Error → S × Bool
  unfolding flush
  finish s event failure =
      let (_, s', more) = flush s event in
      if more then elim failure [ none ↦ (s', true) | some e ↦ yield s' (err e) ] else (s', false)

  pub read_lines : S → Event → List String → Option Error → S × Bool
  unfolding scan_line finish
  read_lines s event [] failure = finish s event failure
  read_lines s event (line ∷ lines) failure =
      let (event', s', more) = scan_line s event line in
      if more then read_lines s' event' lines failure else (s', false)

  -- `Read(r)`, on a stream with all its text and the error that ends it.
  unfoldable pub read : S → Stream → S × Bool
  unfolding read_lines
  read s r = let (lines, failure) = scan r in read_lines s no_event lines failure
