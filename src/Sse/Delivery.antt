-- ===== src/Sse/Delivery.antt =====
-- Which events the reader of internal/sse/reader.go delivers, whatever the stream holds.
use crated.Prelude.{
  Yield, feed, ◌∙◌, ℕ, ◌≤◌, ◌<◌, String, false, List, [], ◌∷◌, ◌++◌, map, Option, none, some,
  Result, ok, All, Error, ◌==◌, ◌≡◌, ◌≢◌, refl, ap, ◌∙◌, arith, eq_iff, Bool-cases, inl, inr,
}
use crated.Prelude.Text.{◌<>◌, trim_space, has_prefix, eq-false_of_ne}
use Prim.Native.String.{len}
use crated.Sse.{Event, no_event, add_field, add_data, read, read_lines}
use crated.Sse.Fields.{events_from-event, events_from-data}
use crated.Sse.Scanner.{Stream, scan, fitting, too_long}
use crated.Sse.Pull.{
  events, events_from, pending, failures, after_blank, read-feed, read_lines-feed,
}

abbrev HasPayload : Event → Type 0
HasPayload e = e.payload ≢ ""

-- The events delivered, then the scanner's error if there is one.
pub record IsDelivery (items : List (Result Event)) (failure : Option Error) : Type 0 where
  pub delivered : List Event
  pub in_order : items ≡ map ok delivered ++ failures failure
  pub payloads : All HasPayload delivered

module _ {failure : Option Error} where
  IsDelivery-pending :
      (event : Event) (items : List (Result Event))
      → IsDelivery items failure
      → IsDelivery (pending event ++ items) failure
  IsDelivery-pending event items d = elim (Bool-cases (event.payload == "")) [
    | inl empty ↦ rw empty d
    | inr full ↦ record {
      delivered = event ∷ d.delivered;
      in_order = rw full (ap (◌∷◌ (ok event)) d.in_order);
      payloads = (ground (arith, eq_iff event.payload ""), d.payloads);
    }
  ]

  events_from-IsDelivery :
      (event : Event) (lines : List String) → IsDelivery (events_from event lines failure) failure
  unfolding events_from
  events_from-IsDelivery event [] =
      IsDelivery-pending event (failures failure)
        (record { delivered = []; in_order = refl; payloads = tt })
  events_from-IsDelivery event (line ∷ lines) = elim (Bool-cases (line == "")) [
    | inl blank ↦
        rw blank (IsDelivery-pending event _ (events_from-IsDelivery (after_blank event) lines))
    | inr field ↦ rw field (events_from-IsDelivery (add_field event line) lines)
  ]

pub events-IsDelivery : (r : Stream) → IsDelivery (events r) (scan r).1
unfolding events
events-IsDelivery r = events_from-IsDelivery no_event (scan r).0

-- Whatever the stream holds, `Read` hands on, in order and up to the item on which the consumer leaves,
-- events that all have data, and then, at most once, an error: the scanner's.
pub read-IsDelivery :
    {S : Type 0} (yield : Yield S (Result Event)) (s : S) (r : Stream)
    → (items : List (Result Event)) × (read yield s r ≡ feed yield s items)
      × IsDelivery items (scan r).1
read-IsDelivery yield s r = (events r, read-feed yield s r, events-IsDelivery r)

-- Comments, `id:` and `retry:` lines.
pub record IsIgnored (line : String) : Type 0 where
  pub not_blank : line ≢ ""
  pub not_event : has_prefix line "event:" ≡ false
  pub not_data : has_prefix line "data:" ≡ false

-- Such a line may stand anywhere in a stream: the events are those without it.
pub events_from-ignored :
    (event : Event) (before after : List String) (line : String) (failure : Option Error)
    → IsIgnored line
    → events_from event (before ++ line ∷ after) failure
      ≡ events_from event (before ++ after) failure
unfolding events_from
events_from-ignored event [] after line failure h =
    unfold add_field in ground (arith, eq_iff line "", h.not_blank)
events_from-ignored event (l ∷ before) after line failure h = ground (
  arith,
  events_from-ignored (after_blank event) before after line failure h,
  events_from-ignored (add_field event l) before after line failure h,
)

-- A line of a stream that does not fit the scanner's buffer ends the events with bufio.ErrTooLong,
-- and nothing behind it is read.
pub fitting-too_long :
    (limit : ℕ) (before after : List String) (line : String) (failure : Option Error)
    → All (λ l. len l < limit) before
    → limit ≤ len line
    → fitting limit (before ++ line ∷ after) failure ≡ (before, some too_long)
unfolding fitting
fitting-too_long limit [] after line failure _ h = ground arith
fitting-too_long limit (l ∷ before) after line failure (fits, hs) h =
    ground (arith, fitting-too_long limit before after line failure hs h)

pub type_outlives_blank :
    (t d : String)
    → trim_space d ≢ ""
    → events_from no_event (("event:" <> t) ∷ "" ∷ ("data:" <> d) ∷ "" ∷ []) none
      ≡ ok (record { type = trim_space t; payload = trim_space d }) ∷ []
type_outlives_blank t d h =
    events_from-event no_event t _ none
    ∙ unfold events_from in
      events_from-data (record { type = trim_space t; payload = "" }) d ("" ∷ []) none
      ∙ unfold events_from add_data in rw (eq-false_of_ne (trim_space d) "" h)

-- An `event:` line with no data before the next blank line is not forgotten at that line: the event
-- that follows takes its type.
pub read_lines_keeps_type :
    {S : Type 0} (yield : Yield S (Result Event)) (s : S) (t d : String)
    → trim_space d ≢ ""
    → read_lines yield s no_event (("event:" <> t) ∷ "" ∷ ("data:" <> d) ∷ "" ∷ []) none
      ≡ feed yield s (ok (record { type = trim_space t; payload = trim_space d }) ∷ [])
read_lines_keeps_type yield s t d h =
    read_lines-feed yield s no_event (("event:" <> t) ∷ "" ∷ ("data:" <> d) ∷ "" ∷ []) none
    ∙ ap (feed yield s) (type_outlives_blank t d h)
