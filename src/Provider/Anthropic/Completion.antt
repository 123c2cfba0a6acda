-- ===== src/Provider/Anthropic/Completion.antt =====
-- What a streamed answer of internal/runtime/providers/anthropic/anthropic.go says up to its
-- `message_stop`: the sound events, and the ending that they tell.
pub mod Steps
pub mod Whole
use crated.Prelude.{
  Bool, true, false, not, String, List, [], ◌∷◌, ◌++◌, Option, none, some, ◌≡◌, refl, sym, ok, err,
  if◌then◌else◌, ◌==◌, is_negative,
}
use mathlib.Core.List.{append_assoc}
use crated.Genai.{LlmResponse, Content, Part, Item}
use crated.Sse.{Event}
use crated.Provider.Anthropic.{AnthropicUsage, MessageDeltaEvent}
use crated.Provider.Anthropic.Stream.{Progress, Decoders, final_response, latest_usage}

-- What the `message_delta` events have said so far.
pub record Ending : Type 0 where
  pub reason : String
  pub usage : Option AnthropicUsage

abbrev pub ending : Progress → Ending
ending p = record { reason = p.stop_reason; usage = p.final_usage }

abbrev told : Ending → MessageDeltaEvent → Ending
told e ev = record { reason = ev.stop_reason; usage = latest_usage ev.usage e.usage }

module _ (decoders : Decoders) where
  -- A `message_delta` replaces the reason, and the usage if it brings one.
  abbrev pub tell : Ending → Event → Ending
  tell e event =
      if event.type == "message_delta"
      then elim (decoders.message event.payload) [ ok ev ↦ told e ev | err f ↦ e ]
      else e

  abbrev pub tell_all : Ending → List Event → Ending
  tell_all e [] = e
  tell_all e (event ∷ later) = tell_all (tell e event) later

  abbrev pub sound_start : String → Bool
  sound_start payload = elim (decoders.start payload) [
    | ok ev ↦ not (is_negative ev.index)
    | err e ↦ false
  ]

  abbrev pub sound_delta : String → Bool
  sound_delta payload = elim (decoders.delta payload) [
    | ok ev ↦ not (is_negative ev.index)
    | err e ↦ false
  ]

  abbrev pub sound_stop : String → Bool
  sound_stop payload = elim (decoders.stop payload) [
    | ok ev ↦ not (is_negative ev.index)
    | err e ↦ false
  ]

  abbrev pub sound_message : String → Bool
  sound_message payload = elim (decoders.message payload) [ ok ev ↦ true | err e ↦ false ]

  -- An event before the end: its data can be decoded, and its index, if it has one, is not negative.
  abbrev pub is_sound : Event → Bool
  is_sound event =
      if event.type == "content_block_start"
      then sound_start event.payload
      else if event.type == "content_block_delta"
      then sound_delta event.payload
      else if event.type == "content_block_stop"
      then sound_stop event.payload
      else if event.type == "message_delta"
      then sound_message event.payload
      else not (event.type == "message_stop")

-- The texts that come as deltas.
module _ (decoders : Decoders) where
  abbrev pub said_by : String → List String
  said_by payload = elim (decoders.delta payload) [
    | ok ev ↦ if ev.delta.type == "text_delta" then ev.delta.text ∷ [] else []
    | err e ↦ []
  ]

  abbrev pub said : Event → List String
  said event = if event.type == "content_block_delta" then said_by event.payload else []

  abbrev pub all_said : List Event → List String
  all_said [] = []
  all_said (event ∷ later) = said event ++ all_said later

-- The texts in the responses.
abbrev part_texts : List Part → List String
part_texts [] = []
part_texts (part ∷ parts) = elim part.function_call [
  | none ↦ part.text ∷ part_texts parts
  | some call ↦ part_texts parts
]

abbrev content_texts : Option Content → List String
content_texts none = []
content_texts (some content) = part_texts content.parts

abbrev response_texts : Option LlmResponse → List String
response_texts none = []
response_texts (some response) = content_texts response.content

abbrev pub texts : List Item → List String
texts [] = []
texts (x ∷ xs) = response_texts x.response ++ texts xs

pub texts-append : (xs ys : List Item) → texts (xs ++ ys) ≡ texts xs ++ texts ys
texts-append [] ys = refl
texts-append (x ∷ xs) ys =
    rw (texts-append xs ys) (sym (append_assoc (response_texts x.response) (texts xs) (texts ys)))

-- The final response under an ending.
abbrev pub finished : Ending → LlmResponse
finished e =
    final_response (record { active_blocks = []; final_usage = e.usage; stop_reason = e.reason })
