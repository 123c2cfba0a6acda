-- ===== src/Middleware/Transparency.antt =====
-- The decorators of internal/runtime/middleware/middleware.go hand the items on as they are, and give
-- back what they take.
use crated.Prelude.{
  ◌<◌, Bool, true, false, String, List, [], ◌∷◌, ◌++◌, Option, none, some, Error, Yield, feed,
  if◌then◌else◌, length, ◌≡◌, refl, arith, int64_mod,
}
use mathlib.Core.List.{append_assoc, append-nil}
use crated.Genai.{LlmRequest, Item}
use crated.RateLimit.{Limiter, acquire, release}
use crated.Middleware.{
  LogEntry, Seen, see, errors_of, log_item, summary, with_logging, limited, with_rate_limit,
  llm_request, tools_available,
}

-- What has been seen, and what has been logged, once all the items came through.
abbrev pub see_all : Seen → List Item → Seen
see_all seen [] = seen
see_all seen (item ∷ items) = see_all (see item seen) items

abbrev pub all_errors : List Item → List LogEntry
all_errors [] = []
all_errors (item ∷ items) = errors_of item ++ all_errors items

module _ {S : Type 0} (yield : Yield S Item) where
  feed-log_item :
      (s : S) (seen : Seen) (log : List LogEntry) (items : List Item)
      → ((feed (log_item yield) (s, seen, log) items).0.0 ≡ (feed yield s items).0)
        × ((feed (log_item yield) (s, seen, log) items).1 ≡ (feed yield s items).1)
  unfolding feed
  feed-log_item s seen log [] = (refl, refl)
  feed-log_item s seen log (item ∷ items) =
      ground (arith, feed-log_item (yield s item).0 (see item seen) (log ++ errors_of item) items)

  feed_stayed :
      (s : S) (seen : Seen) (log : List LogEntry) (items : List Item)
      → (feed yield s items).1 ≡ true
      → ((feed (log_item yield) (s, seen, log) items).0.1 ≡ see_all seen items)
        × ((feed (log_item yield) (s, seen, log) items).0.2 ≡ log ++ all_errors items)
  unfolding feed
  feed_stayed s seen log [] h = (refl, ground (arith, append-nil log))
  feed_stayed s seen log (item ∷ items) h = ground (
    arith,
    feed_stayed (yield s item).0 (see item seen) (log ++ errors_of item) items,
    append_assoc log (errors_of item) (all_errors items),
  )

  -- The consumer of a logged model sees what it would see of the model itself: the same items, up to
  -- the same point.
  pub with_logging_transparent :
      (req : LlmRequest) (streaming : Bool) (items : List Item) (s : S)
      → (with_logging yield req streaming items s).0 ≡ (feed yield s items).0
  unfolding with_logging
  with_logging_transparent req streaming items s = ground (
    arith,
    feed-log_item s (record { last = none; chunks = 0; had_error = false })
        (llm_request streaming (length req.contents) (tools_available req.config) ∷ []) items,
  )

  -- If the consumer takes all items, the log has the request, every error in its order, and, if there
  -- was no error, the summary of all that was seen.
  pub log_complete :
      (req : LlmRequest) (streaming : Bool) (items : List Item) (s : S)
      → (feed yield s items).1 ≡ true
      → (let seen = see_all (record { last = none; chunks = 0; had_error = false }) items in
          let log =
            llm_request streaming (length req.contents) (tools_available req.config)
            ∷ all_errors items in
          (with_logging yield req streaming items s).1
          ≡ (if seen.had_error then log else log ++ summary seen ∷ []))
  unfolding with_logging
  log_complete req streaming items s h =
      let seen : Seen = record { last = none; chunks = 0; had_error = false } in
      let log = llm_request streaming (length req.contents) (tools_available req.config) ∷ [] in
      ground (arith, feed-log_item s seen log items, feed_stayed s seen log items h)

  -- However the consumer of a limited model leaves, and whether or not a slot is free, the slot and
  -- the count of active requests are as before once the iterator has returned.
  pub with_rate_limit-balanced :
      (name : String) (l : Limiter) (canceled : Option Error) (prefer : Bool) (items : List Item)
      (s t : S) (m : Limiter)
      → l.active < int64_mod
      → with_rate_limit yield name l canceled prefer items s ≡ some (t, m)
      → (m.sem ≡ l.sem) × (m.active ≡ l.active) × (m.capacity ≡ l.capacity)
  unfolding with_rate_limit limited acquire release
  with_rate_limit-balanced name l canceled prefer items s t m bound h = ground arith
