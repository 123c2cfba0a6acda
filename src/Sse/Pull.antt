-- ===== src/Sse/Pull.antt =====
-- The events of internal/sse/reader.go as a list, and that `Read` hands the consumer a prefix of it.
use crated.Prelude.{
  String, List, [], ◌∷◌, ◌++◌, Option, none, some, Result, ok, err, Error, Yield, feed,
  if◌then◌else◌, ◌==◌, ◌≡◌, arith,
}
use crated.Sse.{Event, no_event, add_field, read_lines, read, Stream, scan, finish}

abbrev pub pending : Event → List (Result Event)
pending event = if event.payload == "" then [] else ok event ∷ []

-- The event that a blank line leaves behind.
abbrev pub after_blank : Event → Event
after_blank event = if event.payload == "" then event else no_event

abbrev pub failures : Option Error → List (Result Event)
failures none = []
failures (some e) = err e ∷ []

unfoldable pub events_from : Event → List String → Option Error → List (Result Event)
events_from event [] failure = pending event ++ failures failure
events_from event (line ∷ lines) failure =
    let blank = line == "" in
    let rest =
      events_from (if blank then after_blank event else add_field event line) lines failure in
    if blank then pending event ++ rest else rest

-- Every item of the stream, for a consumer that does not leave.
unfoldable pub events : Stream → List (Result Event)
unfolding events_from
events r = let (lines, failure) = scan r in events_from no_event lines failure

module _ {ℓ} {S : Type ℓ} (yield : Yield S (Result Event)) where
  finish-feed :
      (s : S) (event : Event) (failure : Option Error)
      → finish yield s event failure ≡ feed yield s (pending event ++ failures failure)
  unfolding finish feed
  finish-feed s event none = ground arith
  finish-feed s event (some e) = ground arith

  pub read_lines-feed :
      (s : S) (event : Event) (lines : List String) (failure : Option Error)
      → read_lines yield s event lines failure ≡ feed yield s (events_from event lines failure)
  unfolding read_lines events_from feed
  read_lines-feed s event [] failure = finish-feed s event failure
  read_lines-feed s event (line ∷ lines) failure = ground (
    arith,
    read_lines-feed (yield s (ok event)).0 no_event lines failure,
    read_lines-feed s event lines failure,
    read_lines-feed s (add_field event line) lines failure,
  )

  -- `Read` hands the consumer the items of `events` in order, and none after the one on which
  -- the consumer leaves the loop.
  pub read-feed : (s : S) (r : Stream) → read yield s r ≡ feed yield s (events r)
  unfolding read events
  read-feed s r = read_lines-feed s no_event (scan r).0 (scan r).1
