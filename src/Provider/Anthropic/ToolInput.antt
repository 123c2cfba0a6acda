-- ===== src/Provider/Anthropic/ToolInput.antt =====
-- How the loop of internal/runtime/providers/anthropic/anthropic.go puts the input of a tool call
-- together from the events of its block.
use crated.Prelude.{
  ℕ, suc, ◌-◌, ◌<◌, String, List, [], ◌∷◌, ◌++◌, some, Result, ok, Yield, feed, feed-cons, and_then,
  if◌then◌else◌, eqb, pos, length, modify, replicate, get_elem?, ◌≡◌, refl, ap, ◌∙◌, arith, inl,
  inr, Bool-cases, length-append, length-replicate, get_elem?-modify_here, get_elem?-modify_else,
  get_elem?-of_lt,
}
use crated.Prelude.Text.{◌<>◌}
use text.Mathlib.TextLemmas.{append_assoc, append-nil, nil-append}
use crated.Json.{Codec, unmarshalled}
use crated.Genai.{Item, call_part}
use crated.Sse.{Event}
use crated.Provider.Anthropic.{
  ContentBlockStartEvent, ContentBlockDeltaEvent, ContentBlockStopEvent,
}
use crated.Provider.Rounds.{next, wants_more}
use crated.Provider.Anthropic.Stream.{
  ContentBlockAccumulator, blank, Progress, started, start_block, add_json, stopped, Decoders,
  hand_on, go_on, on_start, on_delta, on_stop, on_event, loop_body,
}

-- The fragments with the index `i`, joined in their order.
abbrev pub fragments : ℕ → List (ℕ × String) → String
fragments i [] = ""
fragments i ((j, json) ∷ rest) = if eqb i j then json <> fragments i rest else fragments i rest

abbrev appended : String → ContentBlockAccumulator → ContentBlockAccumulator
appended json b = record b { input_json = b.input_json <> json }

abbrev pub add_all : List ContentBlockAccumulator → List (ℕ × String) → List ContentBlockAccumulator
add_all blocks [] = blocks
add_all blocks ((j, json) ∷ rest) = add_all (modify blocks j (appended json)) rest

get_elem?-add_all :
    (blocks : List ContentBlockAccumulator) (deltas : List (ℕ × String)) (i : ℕ)
    (b : ContentBlockAccumulator)
    → get_elem? blocks i ≡ some b
    → get_elem? (add_all blocks deltas) i ≡ some (appended (fragments i deltas) b)
get_elem?-add_all blocks [] i b h = ground (arith, append-nil b.input_json)
get_elem?-add_all blocks ((j, json) ∷ rest) i b h = elim (Bool-cases (eqb i j)) [
  | inl same ↦
      let e : i ≡ j = ground arith in
      ground (
        arith,
        get_elem?-add_all (modify blocks i (appended json)) rest i (appended json b)
            (get_elem?-modify_here blocks i (appended json) b h),
        append_assoc b.input_json json (fragments i rest),
      )
  | inr other ↦ rw other (
      get_elem?-add_all (modify blocks j (appended json)) rest i b
        (get_elem?-modify_else blocks j i (appended json) other ∙ h))
]

get_elem?-start_block :
    (blocks : List ContentBlockAccumulator) (block : ContentBlockAccumulator) (i : ℕ)
    → (blocks' : List ContentBlockAccumulator) × (start_block blocks block (pos i) ≡ some blocks')
      × (get_elem? blocks' i ≡ some block)
unfolding start_block
get_elem?-start_block blocks block i =
    let longer = blocks ++ replicate (suc i - length blocks) blank in
    let long : i < length longer = omega (
      arith,
      length-append blocks (replicate (suc i - length blocks) blank),
      length-replicate (suc i - length blocks) blank,
    ) in
    let (old, there) = get_elem?-of_lt longer i long in
    (modify longer i (λ _. block), refl, get_elem?-modify_here longer i (λ _. block) old there)

module _ {ℓ} {S : Type ℓ} (codec : Codec) (decoders : Decoders) (yield : Yield S Item) where
  -- Events that are all `input_json_delta`s, with these indices and fragments.
  pub data Deltas : List (Result Event) → List (ℕ × String) → Type 0 where
    no_more : Deltas [] []
    delta :
        (event : Event) (ev : ContentBlockDeltaEvent) (j : ℕ) {events : List (Result Event)}
        {deltas : List (ℕ × String)}
        → event.type ≡ "content_block_delta"
        → decoders.delta event.payload ≡ ok ev
        → ev.delta.type ≡ "input_json_delta"
        → ev.index ≡ pos j
        → Deltas events deltas
        → Deltas (ok event ∷ events) ((j, ev.delta.partial_json) ∷ deltas)

  on_event-delta :
      (s : S) (p : Progress) (event : Event) (ev : ContentBlockDeltaEvent) (j : ℕ)
      → event.type ≡ "content_block_delta"
      → decoders.delta event.payload ≡ ok ev
      → ev.delta.type ≡ "input_json_delta"
      → ev.index ≡ pos j
      → on_event codec decoders yield s p (ok event) ≡ (
        s,
        next (record p {
          active_blocks = modify p.active_blocks j (appended ev.delta.partial_json);
        }),
      )
  unfolding on_event on_delta add_json
  on_event-delta s p event ev j t d k i = rw t (rw (d, on_delta) (rw k (rw i refl)))

  -- One round of the loop, and what follows it.
  feed-round :
      (s : S) (p : Progress) (item : Result Event) (rest : List (Result Event))
      → feed (loop_body codec decoders yield) (s, next p) (item ∷ rest)
        ≡ and_then
            (
              on_event codec decoders yield s p item,
              wants_more (on_event codec decoders yield s p item).1,
            )
            (λ r. feed (loop_body codec decoders yield) r rest)
  feed-round s p item rest = feed-cons (loop_body codec decoders yield) (s, next p) item rest

  feed-Deltas :
      (events : List (Result Event)) (deltas : List (ℕ × String)) (rest : List (Result Event))
      (s : S) (p : Progress)
      → Deltas events deltas
      → feed (loop_body codec decoders yield) (s, next p) (events ++ rest)
        ≡ feed
            (loop_body codec decoders yield)
            (s, next (record p { active_blocks = add_all p.active_blocks deltas }))
            rest
  feed-Deltas _ _ rest s p no_more = refl
  feed-Deltas _ _ rest s p (delta event ev j {events} {deltas} t d k i more) =
      feed-round s p (ok event) (events ++ rest)
      ∙ rw (on_event-delta s p event ev j t d k i) (
          feed-Deltas events deltas rest s
            (record p { active_blocks = modify p.active_blocks j (appended ev.delta.partial_json) })
            more)

  on_event-start :
      (s : S) (p : Progress) (event : Event) (ev : ContentBlockStartEvent) (i : ℕ)
      (blocks : List ContentBlockAccumulator)
      → event.type ≡ "content_block_start"
      → decoders.start event.payload ≡ ok ev
      → ev.index ≡ pos i
      → start_block p.active_blocks (started ev) (pos i) ≡ some blocks
      → on_event codec decoders yield s p (ok event)
        ≡ (s, next (record p { active_blocks = blocks }))
  unfolding on_event on_start
  on_event-start s p event ev i blocks t d at b =
      rw t (rw (d, on_start) (rw at (ap (go_on codec decoders yield s p) b)))

  on_event-stop :
      (s : S) (p : Progress) (event : Event) (ev : ContentBlockStopEvent) (i : ℕ)
      (b : ContentBlockAccumulator)
      → event.type ≡ "content_block_stop"
      → decoders.stop event.payload ≡ ok ev
      → ev.index ≡ pos i
      → get_elem? p.active_blocks i ≡ some b
      → b.type ≡ "tool_use"
      → on_event codec decoders yield s p (ok event)
        ≡ hand_on codec decoders yield s p (call_part b.name (unmarshalled codec b.input_json))
  unfolding on_event on_stop stopped
  on_event-stop s p event ev i b t d at there tool =
      rw t (rw (d, on_stop) (rw at (rw there (rw tool refl))))

  -- A tool call that a stream sends as the start of a block, fragments of input for this and any other
  -- blocks, and the end of the block, is handed on at the end as one call, of the function that the
  -- start names, with the block's fragments joined in order for its input; then the loop goes on.
  pub streamed_call :
      (s : S) (p : Progress) (first last : Event) (begin : ContentBlockStartEvent)
      (end : ContentBlockStopEvent) (i : ℕ) (events rest : List (Result Event))
      (deltas : List (ℕ × String))
      → first.type ≡ "content_block_start"
      → decoders.start first.payload ≡ ok begin
      → begin.index ≡ pos i
      → begin.content_block.type ≡ "tool_use"
      → Deltas events deltas
      → last.type ≡ "content_block_stop"
      → decoders.stop last.payload ≡ ok end
      → end.index ≡ pos i
      → (p' : Progress) × (feed
            (loop_body codec decoders yield)
            (s, next p)
            (ok first ∷ events ++ ok last ∷ rest)
          ≡ (let call =
                call_part begin.content_block.name (unmarshalled codec (fragments i deltas)) in
              let round = hand_on codec decoders yield s p' call in
              and_then
                (round, wants_more round.1)
                (λ r. feed (loop_body codec decoders yield) r rest)))
  streamed_call s p first last begin end i events rest deltas t d at tool all t' d' at' =
      let (blocks, extended, there) = get_elem?-start_block p.active_blocks (started begin) i in
      let p' : Progress = record p { active_blocks = add_all blocks deltas } in
      let found : get_elem? p'.active_blocks i
          ≡ some (appended (fragments i deltas) (started begin)) =
        get_elem?-add_all blocks deltas i (started begin) there in
      (
        p',
        feed-round s p (ok first) (events ++ ok last ∷ rest)
            ∙ rw (on_event-start s p first begin i blocks t d at extended) (
                feed-Deltas events deltas (ok last ∷ rest) s (record p { active_blocks = blocks })
                  all
                ∙ feed-round s p' (ok last) rest
                ∙ rw
                    (on_event-stop s p' last end i (appended (fragments i deltas) (started begin))
                      t' d' at' found tool)
                    (rw nil-append refl)),
      )
