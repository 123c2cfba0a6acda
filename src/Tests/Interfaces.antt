-- ===== src/Tests/Interfaces.antt =====
-- The decorators of internal/runtime/middleware/middleware.go, the frontends of internal/frontend and
-- the probes of internal/health/health.go.
use crated.Prelude.{
  ℕ, suc, ◌%◌, true, false, String, List, [], ◌∷◌, map, Option, none, some, Error, foreign, wrapf,
  str, ok, Yield, feed, ◌≡◌, refl, arith, ◌↔◌, ◌⊎◌, All, eq_iff, int32_mod,
}
use crated.Prelude.Text.{◌<>◌, join, trim_left, trim_right}
use crated.Genai.{Content, UsageMetadata, LlmRequest, Item, respond, fail, text_part, stop}
use crated.RateLimit.{Limiter, acquire}
use crated.Repl.{on_event as print_event}
use crated.Repl.Printing.{streamed, streamed_once}
use crated.Middleware.{with_logging, generate_decorated}
use crated.Middleware.Pipeline.{IsBalanced, generate_decorated-transparent}
use crated.Frontend.{Event, AdkEvent, Usage, no_usage, chat, event_of}
use crated.Frontend.Turn.{total_of, chat_usage}
use crated.Playground.{check_origin, trim}
use crated.Playground.Origins.{IsOrigin, IsIn, check_origin-join_iff, check_origin_dev_iff}

abbrev counting : {A : Type 0} → Yield ℕ A
counting n x = (suc n, true)

abbrev usage : UsageMetadata
usage = record { prompt_token_count = 5; candidates_token_count = 7; total_token_count = 12 }

abbrev said : String → Content
said t = record { role = "model"; parts = text_part t ∷ [] }

abbrev items : List Item
items =
    respond (record {
      content = some (said "hi");
      turn_complete = true;
      finish_reason = stop;
      usage_metadata = some usage;
    })
    ∷ fail (foreign "reset")
    ∷ []

abbrev request : LlmRequest
request = record { contents = said "hello" ∷ []; config = none }

abbrev one_slot : Limiter
one_slot = record { sem = 0; capacity = 1; active = 0; total = 0; dropped = 0 }

abbrev held : Limiter
held = record one_slot { sem = 1; active = 1; total = 1 }

let_through : acquire one_slot none true ≡ some (held, none)
unfolding acquire
let_through = refl

generate_decorated-transparent_example :
    ((m' : Limiter) × (◌≡◌ {A = Option Error} none none)
      × (generate_decorated counting "m" one_slot none true request true items 0
          ≡ some (((feed counting 0 items).0, (with_logging counting request true items 0).1), m'))
      × IsBalanced counting one_slot m')
    ⊎ ((e : Error) × (none ≡ some e)
        × (generate_decorated counting "m" one_slot none true request true items 0
            ≡ some (
              (
                (counting 0
                    (fail (wrapf "rate limit exceeded for model %s: %w" (str "m" ∷ []) e))).0,
                [],
              ),
              held,
            )))
generate_decorated-transparent_example =
    generate_decorated-transparent counting "m" one_slot held none none true request true items 0
      (omega arith) let_through

abbrev event : Option Content → AdkEvent
event content = record {
  content = content;
  usage_metadata = some usage;
  is_final = true;
  author = "crated";
}

-- The last event has no content, so its tokens are not counted.
abbrev events : List AdkEvent
events = event (some (said "a")) ∷ event (some (said "b")) ∷ event none ∷ []

stayed : (chat counting (map ok events) 0).1 ≡ true
unfolding chat feed crated.Frontend.on_item
stayed = refl

chat_usage_example :
    (let u = (chat counting (map ok events) 0).0.1 in
      (u.prompt_tokens ≡ total_of (λ um. um.prompt_token_count) events % int32_mod)
      × (u.completion_tokens ≡ total_of (λ um. um.candidates_token_count) events % int32_mod)
      × (u.total_tokens ≡ total_of (λ um. um.total_token_count) events % int32_mod))
chat_usage_example = chat_usage counting events 0 stayed

abbrev message : Error → String
message e = "error"

origins-IsOrigin : All IsOrigin ("https://a.org" ∷ "https://b.org" ∷ [])
unfolding trim trim_left trim_right
origins-IsOrigin = (
  record { trimmed = refl; no_comma = refl; not_empty = ground (arith, eq_iff "https://a.org" "") },
  (
    record {
      trimmed = refl;
      no_comma = refl;
      not_empty = ground (arith, eq_iff "https://b.org" "");
    },
    tt,
  ),
)

check_origin-join_iff_example :
    (check_origin (join ("https://a.org" ∷ "https://b.org" ∷ []) ",") "3000" "https://b.org" ≡ true)
    ↔ ((◌≡◌ {A = String} "https://b.org" "")
        ⊎ IsIn "https://b.org" ("https://a.org" ∷ "https://b.org" ∷ []))
check_origin-join_iff_example =
    check_origin-join_iff "https://a.org" ("https://b.org" ∷ []) "3000" "https://b.org"
      origins-IsOrigin

abbrev evil : String
evil = "https://evil.org"

check_origin_dev_iff_example : (check_origin "" "3000" evil ≡ true) ↔ (
    (evil ≡ "") ⊎ (evil ≡ "http://localhost:" <> "3000") ⊎ (evil ≡ "http://127.0.0.1:" <> "3000"))
check_origin_dev_iff_example = check_origin_dev_iff "3000" evil

streamed_once_example :
    feed
      (print_event (λ e. "boom"))
      (record { prev_text = ""; prompted = false; printed = "\nUser -> " ∷ [] })
      (streamed ("Hel" ∷ "lo" ∷ []) "Hello")
    ≡ (
      record {
        prev_text = "";
        prompted = true;
        printed = "\nUser -> " ∷ "\nAgent -> " ∷ "Hel" ∷ "lo" ∷ [];
      },
      true,
    )
streamed_once_example =
    streamed_once (λ e. "boom") "Hel" ("lo" ∷ []) ("\nUser -> " ∷ [])
      (ground (arith, eq_iff "Hel" ""), (ground (arith, eq_iff "lo" ""), _))
