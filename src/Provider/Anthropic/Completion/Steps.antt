-- ===== src/Provider/Anthropic/Completion/Steps.antt =====
-- A sound event of a stream of internal/runtime/providers/anthropic/anthropic.go gives pieces only,
-- and the loop goes on.
use crated.Prelude.{
  Bool, true, false, not, String, List, [], ◌∷◌, Option, none, some, ok, All, if◌then◌else◌, ◌==◌,
  eq_iff, is_negative, ◌≡◌, refl, arith, Bool-cases, Result-cases, inl, inr, ℤ, pos, negsuc,
}
use crated.Json.{Codec}
use crated.Genai.{Item, respond}
use crated.Sse.{Event}
use crated.Provider.Rounds.{next, left}
use crated.Provider.Anthropic.Stream.{
  ContentBlockAccumulator, Progress, Decoders, started, start_block, add_json, stopped,
  final_response, latest_usage,
}
use crated.Provider.Anthropic.Responses.{
  Round, with_blocks, block_step, started_step, delta_step, stopped_step, message_step, step,
}
use crated.Provider.Anthropic.Answer.{IsPiece, text, call}
use crated.Provider.Anthropic.Completion.{
  Ending, ending, tell, said, said_by, texts, sound_start, sound_delta, sound_stop, sound_message,
  is_sound,
}

-- The round goes on, with pieces only, and with this ending.
pub record GoesOn (codec : Codec) (e : Ending) (t : List String) (r : Round) : Type 0 where
  pub onward : Progress
  pub goes : r.1 ≡ next onward
  pub pieces : All (IsPiece codec) r.0
  pub says : texts r.0 ≡ t
  pub ends : ending onward ≡ e

start_block-some :
    (blocks : List ContentBlockAccumulator) (block : ContentBlockAccumulator) (i : ℤ)
    → not (is_negative i) ≡ true
    → (some_blocks : List ContentBlockAccumulator) × (start_block blocks block i ≡ some some_blocks)
unfolding start_block
start_block-some blocks block (pos i) h = (_, refl)
start_block-some blocks block (negsuc i) h = cc (h)

add_json-some :
    (blocks : List ContentBlockAccumulator) (json : String) (i : ℤ)
    → not (is_negative i) ≡ true
    → (some_blocks : List ContentBlockAccumulator) × (add_json blocks json i ≡ some some_blocks)
unfolding add_json
add_json-some blocks json (pos i) h = (_, refl)
add_json-some blocks json (negsuc i) h = cc (h)

stopped-some :
    (blocks : List ContentBlockAccumulator) (i : ℤ)
    → not (is_negative i) ≡ true
    → (block : Option ContentBlockAccumulator) × (stopped blocks i ≡ some block)
unfolding stopped
stopped-some blocks (pos i) h = (_, refl)
stopped-some blocks (negsuc i) h = cc (h)

the_other : (b : Bool) → not b ≡ true → b ≡ false
the_other b h = ground (arith, h)

module _ (codec : Codec) where
  pick-GoesOn :
      (e : Ending) (t : List String) (b h h' : Bool) (r r' : Round)
      → (b ≡ true → h ≡ true → GoesOn codec e t r)
      → (b ≡ false → h' ≡ true → GoesOn codec e t r')
      → (if b then h else h') ≡ true
      → GoesOn codec e t (if b then r else r')
  pick-GoesOn e t true h h' r r' here there sound = here refl sound
  pick-GoesOn e t false h h' r r' here there sound = there refl sound

  silent : (p : Progress) → GoesOn codec (ending p) [] ([], next p)
  silent p = record { onward = p; goes = refl; pieces = tt; says = refl; ends = refl }

  speaking :
      (p : Progress) (x : Item)
      → IsPiece codec x
      → GoesOn codec (ending p) (texts (x ∷ [])) (x ∷ [], next p)
  speaking p x h = record { onward = p; goes = refl; pieces = (h, tt); says = refl; ends = refl }

  with_blocks-GoesOn :
      (p : Progress) (blocks : Option (List ContentBlockAccumulator))
      → (bs : List ContentBlockAccumulator) × (blocks ≡ some bs)
      → GoesOn codec (ending p) [] (with_blocks p blocks)
  with_blocks-GoesOn p blocks (bs, e) = rw e (record {
    onward = record p { active_blocks = bs };
    goes = refl;
    pieces = tt;
    says = refl;
    ends = refl;
  })

  block_step-GoesOn :
      (decoders : Decoders) (p : Progress) (block : Option ContentBlockAccumulator)
      → GoesOn codec (ending p) [] (block_step codec decoders p (some block))
  block_step-GoesOn decoders p none = silent p
  block_step-GoesOn decoders p (some b) =
      pick-GoesOn (ending p) [] (b.type == "tool_use") true true _ _
        (λ _ _. speaking p _ (call b.name b.input_json)) (λ _ _. silent p) (ground arith)

module _ (codec : Codec) (decoders : Decoders) where
  started_step-GoesOn :
      (p : Progress) (payload : String)
      → sound_start decoders payload ≡ true
      → GoesOn codec (ending p) [] (started_step codec decoders p payload)
  unfolding started_step
  started_step-GoesOn p payload = elim (Result-cases (decoders.start payload)) [
    | inl (ev, got) ↦
        rw (got, started_step, sound_start)
          (λ h.
            with_blocks-GoesOn codec p _ (start_block-some p.active_blocks (started ev) ev.index h))
    | inr (e, failed) ↦ rw (failed, started_step, sound_start) (λ h. cc (h))
  ]

  delta_step-GoesOn :
      (p : Progress) (payload : String)
      → sound_delta decoders payload ≡ true
      → GoesOn codec (ending p) (said_by decoders payload) (delta_step codec decoders p payload)
  unfolding delta_step
  delta_step-GoesOn p payload = elim (Result-cases (decoders.delta payload)) [
    | inl (ev, got) ↦
        rw (got, delta_step, sound_delta, said_by)
          (elim (Bool-cases (ev.delta.type == "text_delta")) [
            | inl is_text ↦ rw is_text (λ h. speaking codec p _ (text ev.delta.text))
            | inr other ↦ rw other (λ h.
                pick-GoesOn codec (ending p) [] (ev.delta.type == "input_json_delta") true true _ _
                  (λ _ _.
                    with_blocks-GoesOn codec p _
                      (add_json-some p.active_blocks ev.delta.partial_json ev.index h))
                  (λ _ _. silent codec p) (ground arith))
          ])
    | inr (e, failed) ↦ rw (failed, delta_step, sound_delta, said_by) (λ h. cc (h))
  ]

  stopped_step-GoesOn :
      (p : Progress) (payload : String)
      → sound_stop decoders payload ≡ true
      → GoesOn codec (ending p) [] (stopped_step codec decoders p payload)
  unfolding stopped_step
  stopped_step-GoesOn p payload = elim (Result-cases (decoders.stop payload)) [
    | inl (ev, got) ↦
        rw (got, stopped_step, sound_stop)
          (λ h.
            let (block, e) = stopped-some p.active_blocks ev.index h in
            rw e (block_step-GoesOn codec decoders p block))
    | inr (e, failed) ↦ rw (failed, stopped_step, sound_stop) (λ h. cc (h))
  ]

  message_step-GoesOn :
      (p : Progress) (event : Event)
      → event.type ≡ "message_delta"
      → sound_message decoders event.payload ≡ true
      → GoesOn codec
          (tell decoders (ending p) event)
          []
          (message_step codec decoders p event.payload)
  unfolding message_step
  message_step-GoesOn p event is = elim (Result-cases (decoders.message event.payload)) [
    | inl (ev, got) ↦
        rw (got, is, message_step, sound_message)
          (λ h. record {
            onward = record p {
              stop_reason = ev.stop_reason;
              final_usage = latest_usage ev.usage p.final_usage;
            };
            goes = refl;
            pieces = tt;
            says = refl;
            ends = refl;
          })
    | inr (e, failed) ↦ rw (failed, is, message_step, sound_message) (λ h. cc (h))
  ]

  passed :
      (p : Progress) (event : Event)
      → not (event.type == "message_stop") ≡ true
      → GoesOn codec (ending p) [] (
          if event.type == "message_stop"
          then (respond (final_response p) ∷ [], left)
          else ([], next p))
  passed p event sound = rw (the_other (event.type == "message_stop") sound) (silent codec p)

  differs :
      (event : Event) (this other : String)
      → (event.type == this) ≡ true
      → (this == other) ≡ false
      → (event.type == other) ≡ false
  differs event this other is unlike = rw ((eq_iff event.type this).0 is, unlike) refl

  -- An event of another type than `message_delta` tells nothing, and one of another type than
  -- `content_block_delta` says nothing.
  untold :
      (p : Progress) (event : Event) (t : List String) (r : Round)
      → (event.type == "message_delta") ≡ false
      → GoesOn codec (ending p) t r
      → GoesOn codec (tell decoders (ending p) event) t r
  untold p event t r other h = rw (other, tell) h

  unsaid :
      (e : Ending) (event : Event) (r : Round)
      → (event.type == "content_block_delta") ≡ false
      → GoesOn codec e [] r
      → GoesOn codec e (said decoders event) r
  unsaid e event r other h = rw (other, said) h

  said_at_delta :
      (e : Ending) (event : Event) (r : Round)
      → (event.type == "content_block_delta") ≡ true
      → GoesOn codec e (said_by decoders event.payload) r
      → GoesOn codec e (said decoders event) r
  said_at_delta e event r is h = rw (is, said) h

  other_than_delta :
      (p : Progress) (event : Event)
      → (event.type == "content_block_delta") ≡ false
      → (if event.type == "content_block_stop"
          then sound_stop decoders event.payload
          else if event.type == "message_delta"
          then sound_message decoders event.payload
          else not (event.type == "message_stop"))
        ≡ true
      → GoesOn codec (tell decoders (ending p) event) [] (
          if event.type == "content_block_stop"
          then stopped_step codec decoders p event.payload
          else if event.type == "message_delta"
          then message_step codec decoders p event.payload
          else if event.type == "message_stop"
          then (respond (final_response p) ∷ [], left)
          else ([], next p))
  other_than_delta p event no_delta =
      pick-GoesOn codec _ [] (event.type == "content_block_stop") _ _ _ _
        (λ is sound.
          untold p event [] _ (differs event "content_block_stop" "message_delta" is refl)
            (stopped_step-GoesOn p event.payload sound))
        (λ _.
          pick-GoesOn codec _ [] (event.type == "message_delta") _ _ _ _
            (λ is. message_step-GoesOn p event ((eq_iff event.type "message_delta").0 is))
            (λ other sound. untold p event [] _ other (passed p event sound)))

  pub step-GoesOn :
      (p : Progress) (event : Event)
      → is_sound decoders event ≡ true
      → GoesOn codec
          (tell decoders (ending p) event)
          (said decoders event)
          (step codec decoders p (ok event))
  unfolding step
  step-GoesOn p event =
      pick-GoesOn codec _ _ (event.type == "content_block_start") _ _ _ _
        (λ is sound.
          unsaid _ event _ (differs event "content_block_start" "content_block_delta" is refl) (
            untold p event [] _ (differs event "content_block_start" "message_delta" is refl)
              (started_step-GoesOn p event.payload sound)))
        (λ _.
          pick-GoesOn codec _ _ (event.type == "content_block_delta") _ _ _ _
            (λ is sound. said_at_delta _ event _ is (
              untold p event _ _ (differs event "content_block_delta" "message_delta" is refl)
                (delta_step-GoesOn p event.payload sound)))
            (λ other sound. unsaid _ event _ other (other_than_delta p event other sound)))
