-- ===== src/Middleware.antt =====
-- internal/runtime/middleware/middleware.go: the decorators of a model. The items that the inner
-- model's iterator has to give are a list; `Yield` is the consumer behind the decorator.
pub mod Transparency
pub mod Pipeline
use crated.Prelude.{
  ℕ, zero, suc, ◌+◌, Bool, true, false, ◌||◌, String, List, [], ◌∷◌, ◌++◌, map, Option, none, some,
  is_some, Error, wrapf, str, Yield, feed, if◌then◌else◌, length,
}
use crated.Genai.{
  FunctionCall, Part, Content, Tool, LlmRequest, LlmResponse, Item, UsageMetadata, fail,
  GenerateContentConfig,
}
use crated.RateLimit.{Limiter, acquire, release}

-- The records of the logger; durations are left out.
pub data LogEntry : Type 0 where
  llm_request : Bool → ℕ → ℕ → LogEntry
  llm_error : Error → LogEntry
  llm_response : ℕ → Option UsageMetadata → List String → LogEntry

abbrev pub tool_count : List Tool → ℕ
tool_count [] = 0
tool_count (t ∷ ts) = length t.function_declarations + tool_count ts

abbrev pub tools_available : Option GenerateContentConfig → ℕ
tools_available none = 0
tools_available (some config) = tool_count config.tools

-- The names of the function calls among the parts.
unfoldable pub called : List Part → List String
called [] = []
called (p ∷ ps) = elim p.function_call [ none ↦ called ps | some call ↦ call.name ∷ called ps ]

-- `lastResp`, `chunks` and `hadError`
pub record Seen : Type 0 where
  pub last : Option LlmResponse
  pub chunks : ℕ
  pub had_error : Bool

abbrev pub or_last : Option LlmResponse → Option LlmResponse → Option LlmResponse
or_last none old = old
or_last (some r) old = some r

-- What the loop's body does before it yields.
abbrev pub see : Item → Seen → Seen
see item seen = record {
  last = or_last item.response seen.last;
  chunks = suc seen.chunks;
  had_error = is_some item.failure || seen.had_error;
}

abbrev pub errors_of : Item → List LogEntry
errors_of item = elim item.failure [ none ↦ [] | some e ↦ llm_error e ∷ [] ]

-- The attributes "tool_calls" and the three of the usage, where they are there.
abbrev pub summary : Seen → LogEntry
unfolding called
summary seen = elim seen.last [
  | none ↦ llm_response seen.chunks none []
  | some r ↦
      llm_response seen.chunks r.usage_metadata
        (elim r.content [ none ↦ [] | some content ↦ called content.parts ])
]

module _ {S : Type 0} (yield : Yield S Item) where
  -- The loop's body, over the consumer, what has been seen, and the log.
  abbrev pub log_item : Yield (S × Seen × List LogEntry) Item
  log_item (s, seen, log) item =
      let (s', more) = yield s item in ((s', see item seen, log ++ errors_of item), more)

  -- `loggingModel.GenerateContent`: the consumer behind it, and the log.
  unfoldable pub with_logging : LlmRequest → Bool → List Item → S → S × List LogEntry
  unfolding feed called
  with_logging req streaming items s =
      let first = llm_request streaming (length req.contents) (tools_available req.config) in
      let ((t, seen, log), stayed) =
        feed log_item (s, record { last = none; chunks = 0; had_error = false }, first ∷ [])
          items in
      if stayed
      then (if seen.had_error then (t, log) else (t, log ++ summary seen ∷ []))
      else (t, log)

-- The guard of `rateLimitedModel.GenerateContent` around the inner model's loop, `run`, with the
-- limiter behind it; `refuse` is the yield of the error. `none` blocks in `Acquire`, or in the
-- deferred `Release`.
unfoldable pub limited :
    {T : Type 0} → String → Limiter → Option Error → Bool → T → (Error → T) → Option (T × Limiter)
unfolding acquire release
limited name l canceled prefer run refuse = elim (acquire l canceled prefer) [
  | none ↦ none
  | some (m, some e) ↦
      some (refuse (wrapf "rate limit exceeded for model %s: %w" (str name ∷ []) e), m)
  | some (m, none) ↦ elim (release m) [ none ↦ none | some m' ↦ some (run, m') ]
]

module _ {S : Type 0} (yield : Yield S Item) where
  -- `rateLimitedModel.GenerateContent` around a model with these items.
  unfoldable pub with_rate_limit :
      String → Limiter → Option Error → Bool → List Item → S → Option (S × Limiter)
  unfolding limited feed
  with_rate_limit name l canceled prefer items s =
      limited name l canceled prefer (feed yield s items).0 (λ e. (yield s (fail e)).0)

  -- GenerateContent of a model as `createModel` decorates it: rate limiting around logging around
  -- the provider's model, which has these items. The consumer, the log, and the limiter.
  unfoldable pub generate_decorated :
      String
      → Limiter
      → Option Error
      → Bool
      → LlmRequest
      → Bool
      → List Item
      → S
      → Option ((S × List LogEntry) × Limiter)
  unfolding limited with_logging
  generate_decorated name l canceled prefer req streaming items s =
      limited name l canceled prefer (with_logging yield req streaming items s)
        (λ e. ((yield s (fail e)).0, []))
