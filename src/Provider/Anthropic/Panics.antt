-- ===== src/Provider/Anthropic/Panics.antt =====
-- Where the loop of internal/runtime/providers/anthropic/anthropic.go indexes its blocks.
use crated.Prelude.{
  Bool, true, false, String, ok, err, Yield, if◌then◌else◌, ◌==◌, is_negative, ◌≡◌, refl, arith,
  Result-cases, eq_iff, inl, inr, Bool-cases,
}
use crated.Json.{Codec}
use crated.Genai.{Item}
use crated.Sse.{Event}
use crated.Provider.Rounds.{Flow, next, left, panics}
use crated.Provider.Anthropic.Stream.{
  Progress, Decoders, on_start, on_delta, on_stop, on_message, on_event, start_block, add_json,
  stopped,
}

module _ (decoders : Decoders) where
  abbrev start_negative : String → Bool
  start_negative text = elim (decoders.start text) [ ok ev ↦ is_negative ev.index | err e ↦ false ]

  abbrev delta_negative : String → Bool
  delta_negative text = elim (decoders.delta text) [
    | ok ev ↦ if ev.delta.type == "input_json_delta" then is_negative ev.index else false
    | err e ↦ false
  ]

  abbrev stop_negative : String → Bool
  stop_negative text = elim (decoders.stop text) [ ok ev ↦ is_negative ev.index | err e ↦ false ]

  -- An event of a block whose index is negative, where the loop uses the index.
  abbrev pub has_negative : Event → Bool
  has_negative event =
      if event.type == "content_block_start"
      then start_negative event.payload
      else if event.type == "content_block_delta"
      then delta_negative event.payload
      else if event.type == "content_block_stop"
      then stop_negative event.payload
      else false

abbrev pub is_panic : Flow Progress → Bool
is_panic (next p) = false
is_panic left = false
is_panic panics = true

module _ {ℓ} {S : Type ℓ} (codec : Codec) (decoders : Decoders) (yield : Yield S Item) where
  on_start-panics :
      (s : S) (p : Progress) (text : String)
      → is_panic (on_start codec decoders yield s p text).1 ≡ start_negative decoders text
  unfolding on_start start_block
  on_start-panics s p text = ground arith

  text_is_not_json : (type : String) → type ≡ "text_delta" → (type == "input_json_delta") ≡ false
  text_is_not_json type h = rw h refl

  on_delta-panics :
      (s : S) (p : Progress) (text : String)
      → is_panic (on_delta codec decoders yield s p text).1 ≡ delta_negative decoders text
  unfolding on_delta add_json
  on_delta-panics s p text = elim (Result-cases (decoders.delta text)) [
    | inl (ev, got) ↦ elim (Bool-cases (ev.delta.type == "text_delta")) [
      | inl is_text ↦
          let type : ev.delta.type ≡ "text_delta" = (eq_iff ev.delta.type "text_delta").0 is_text in
          ground (arith, got, text_is_not_json ev.delta.type type)
      | inr other ↦ ground (arith, got)
    ]
    | inr (e, failed) ↦ ground (arith, failed)
  ]

  on_stop-panics :
      (s : S) (p : Progress) (text : String)
      → is_panic (on_stop codec decoders yield s p text).1 ≡ stop_negative decoders text
  unfolding on_stop stopped
  on_stop-panics s p text = ground arith

  -- A round of the loop panics exactly at an event with a negative index: a start, an
  -- `input_json_delta` or a stop of a block.
  pub on_event-panics :
      (s : S) (p : Progress) (event : Event)
      → is_panic (on_event codec decoders yield s p (ok event)).1 ≡ has_negative decoders event
  unfolding on_event on_message
  on_event-panics s p event = ground (
    arith,
    on_start-panics s p event.payload,
    on_delta-panics s p event.payload,
    on_stop-panics s p event.payload,
  )
