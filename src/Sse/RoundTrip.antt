-- ===== src/Sse/RoundTrip.antt =====
-- What internal/sse/reader.go reads from a stream that a server has written event by event.
use Prim.Native.Char.{code}
use Prim.Native.String.{len}
use crated.Prelude.{
  Yield, feed, Result, ◌<◌, String, false, Bool, ◌||◌, List, [], ◌∷◌, ◌++◌, map, Option, none, some,
  ok, All, eqb, ◌≡◌, ◌≢◌, refl, ap, ◌∙◌, arith, eq_iff,
}
use crated.Prelude.Text.{◌<>◌, IsTrimmed, trim_space_blank, append-ne-nil}
use text.Mathlib.TextLemmas.{nil-append, cons-append}
use crated.Sse.{Event, no_event, add_data, read}
use crated.Sse.Fields.{events_from-event, events_from-data}
use crated.Sse.Scanner.{Stream, scan, split_lines, drop_cr, fitting, max_line}
use crated.Sse.Pull.{events, events_from, read-feed}

-- An event as a server sends it, with a type line or without, and its data line by line.
pub record Message : Type 0 where
  pub type : Option String
  pub first : String
  pub more : List String

abbrev pub encode_data : String → String
encode_data text = "data:" <> (" " <> text)

abbrev encode_type : Option String → List String → List String
encode_type none rest = rest
encode_type (some t) rest = ("event:" <> (" " <> t)) ∷ rest

abbrev pub type_name : Option String → String
type_name none = ""
type_name (some t) = t

abbrev pub encode : Message → List String → List String
encode m rest = encode_type m.type (encode_data m.first ∷ (map encode_data m.more ++ ("" ∷ rest)))

abbrev pub encode_all : List Message → List String
encode_all [] = []
encode_all (m ∷ ms) = encode m (encode_all ms)

abbrev pub joined : String → List String → String
joined payload [] = payload
joined payload (d ∷ ds) = joined (payload <> ("\n" <> d)) ds

abbrev pub event_of : Message → Event
event_of m = record { type = type_name m.type; payload = joined m.first m.more }

pub record IsCanonical (m : Message) : Type 0 where
  pub type_trimmed : IsTrimmed (type_name m.type)
  pub first_trimmed : IsTrimmed m.first
  pub first_given : m.first ≢ ""
  pub more_trimmed : All IsTrimmed m.more

more_data :
    (event : Event) (d : String)
    → event.payload ≢ ""
    → add_data event d ≡ record event { payload = event.payload <> ("\n" <> d) }
unfolding add_data
more_data event d h = ground (arith, eq_iff event.payload "")

lines_more :
    (event : Event) (ds rest : List String)
    → event.payload ≢ ""
    → All IsTrimmed ds
    → events_from event (map encode_data ds ++ ("" ∷ rest)) none
      ≡ ok (record event { payload = joined event.payload ds }) ∷ events_from no_event rest none
lines_more event [] rest h _ = unfold events_from in ground (arith, eq_iff event.payload "")
lines_more event (d ∷ ds) rest h (t, ts) =
    events_from-data event (" " <> d) _ none
    ∙ rw (trim_space_blank d) (
        rw t (
          rw (more_data event d h) (
            lines_more (record event { payload = event.payload <> ("\n" <> d) }) ds rest
              (append-ne-nil event.payload _ h) ts)))

events_from-encode_type :
    (type : Option String) (rest : List String)
    → IsTrimmed (type_name type)
    → events_from no_event (encode_type type rest) none
      ≡ events_from (record no_event { type = type_name type }) rest none
events_from-encode_type none rest h = refl
events_from-encode_type (some t) rest h =
    events_from-event no_event (" " <> t) rest none ∙ rw (trim_space_blank t, h) refl

events_from-encode :
    (m : Message) (rest : List String)
    → IsCanonical m
    → events_from no_event (encode m rest) none ≡ ok (event_of m) ∷ events_from no_event rest none
events_from-encode m rest h =
    events_from-encode_type m.type _ h.type_trimmed
    ∙ events_from-data _ (" " <> m.first) _ none
    ∙ rw (trim_space_blank m.first, h.first_trimmed)
        (unfold add_data in
          lines_more (record { type = type_name m.type; payload = m.first }) m.more rest
            h.first_given h.more_trimmed)

events_from-encode_all :
    (ms : List Message)
    → All IsCanonical ms
    → events_from no_event (encode_all ms) none ≡ map (λ m. ok (event_of m)) ms
events_from-encode_all [] _ = unfold events_from in refl
events_from-encode_all (m ∷ ms) (h, hs) =
    events_from-encode m (encode_all ms) h ∙ rw (events_from-encode_all ms hs)

-- A line that goes over the wire unchanged.
abbrev pub has_newline : String → Bool
has_newline String.[] = false
has_newline (String.◌∷◌ c s) = eqb (code c) b'\n' || has_newline s

pub record IsLine (l : String) : Type 0 where
  pub no_newline : has_newline l ≡ false
  pub no_return : drop_cr l ≡ l
  pub fits : len l < max_line

abbrev pub unlines : List String → String
unlines [] = ""
unlines (l ∷ ls) = l <> ("\n" <> unlines ls)

split_lines-line :
    (l rest : String)
    → has_newline l ≡ false
    → split_lines (l <> ("\n" <> rest)) ≡ l ∷ split_lines rest
unfolding split_lines
split_lines-line String.[] rest h = rw nil-append (rw cons-append (rw nil-append))
split_lines-line (String.◌∷◌ c s) rest h = rw cons-append (ground (arith, split_lines-line s rest))

split_lines-unlines : (ls : List String) → All IsLine ls → split_lines (unlines ls) ≡ ls
split_lines-unlines [] _ = unfold split_lines in refl
split_lines-unlines (l ∷ ls) (h, hs) =
    split_lines-line l (unlines ls) h.no_newline ∙ ap (◌∷◌ l) (split_lines-unlines ls hs)

fitting-IsLine : (ls : List String) → All IsLine ls → fitting max_line ls none ≡ (ls, none)
unfolding fitting
fitting-IsLine [] _ = refl
fitting-IsLine (l ∷ ls) (h, hs) = ground (arith, fitting-IsLine ls hs)

map-drop_cr : (ls : List String) → All IsLine ls → map drop_cr ls ≡ ls
map-drop_cr [] _ = refl
map-drop_cr (l ∷ ls) (h, hs) = cc (h.no_return, map-drop_cr ls hs)

abbrev pub stream_of : List String → Stream
stream_of ls = record { text = unlines ls; failure = none }

scan-unlines : (ls : List String) → All IsLine ls → scan (stream_of ls) ≡ (ls, none)
unfolding scan
scan-unlines ls h = rw (split_lines-unlines ls h) (rw (fitting-IsLine ls h) (rw (map-drop_cr ls h)))

pub events-encode_all :
    (ms : List Message)
    → All IsCanonical ms
    → All IsLine (encode_all ms)
    → events (stream_of (encode_all ms)) ≡ map (λ m. ok (event_of m)) ms
unfolding events
events-encode_all ms h lines = rw (scan-unlines (encode_all ms) lines) (events_from-encode_all ms h)

pub events-split :
    (before : List Message) (stop : Message) (later : List Message)
    → map (λ m. ok (event_of m)) (before ++ stop ∷ later)
      ≡ map ok (map event_of before) ++ ok (event_of stop) ∷ map (λ m. ok (event_of m)) later
events-split [] stop later = refl
events-split (m ∷ before) stop later = ap (◌∷◌ (ok (event_of m))) (events-split before stop later)

-- Whatever events a server writes, each with a type line or without, its data lines (trimmed, the
-- first not empty) and a blank line, all within the scanner's limit, `Read` hands on just these events in
-- order, with the data lines joined by newlines, up to the one on which the consumer leaves.
pub read-encode_all :
    {S : Type 0} (yield : Yield S (Result Event)) (s : S) (ms : List Message)
    → All IsCanonical ms
    → All IsLine (encode_all ms)
    → read yield s (stream_of (encode_all ms)) ≡ feed yield s (map (λ m. ok (event_of m)) ms)
read-encode_all yield s ms h lines =
    read-feed yield s (stream_of (encode_all ms)) ∙ ap (feed yield s) (events-encode_all ms h lines)
