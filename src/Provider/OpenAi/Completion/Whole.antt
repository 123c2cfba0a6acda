-- ===== src/Provider/OpenAi/Completion/Whole.antt =====
-- A whole streamed answer of internal/runtime/providers/openai/openai.go, up to the chunk with a
-- finish reason.
use crated.Prelude.{
  String, List, [], ◌∷◌, ◌++◌, map, none, some, Result, ok, ◌≡◌, ◌≢◌, refl, ap, ◌∙◌, arith,
  Option-cases, inl, inr, Yield, feed, subst,
}
use crated.Prelude.Text.{eq-false_of_ne}
use mathlib.Core.List.{append_assoc, append-nil, map-append}
use crated.Json.{Codec}
use crated.Genai.{Item, respond}
use crated.Sse.{Event}
use crated.Sse.Scanner.{Stream}
use crated.Sse.Pull.{events}
use crated.Provider.Rounds.{Flow, next, left, run, run-next, settle, settle_left}
use crated.Provider.OpenAi.{StreamToolCall, StreamChoice, StreamResponse}
use crated.Provider.OpenAi.Stream.{
  ToolCallAccumulator, Progress, at_start, consume, final_response, accumulate, accumulate_all,
  latest_usage,
}
use crated.Provider.OpenAi.Responses.{choose, step, consume-run}
use crated.Provider.OpenAi.Completion.{
  first_of, spoken, calls, finish, all_spoken, all_calls, last_usage, partial, Holds, holds_none,
  holds_one,
}

abbrev given {ℓ} : {S : Type ℓ} → Yield S Item → S → List Item × Flow Progress → S × Flow Progress
given yield s r = settle (feed yield s r.0) r.1

accumulate_all-append :
    (known : List ToolCallAccumulator) (xs ys : List StreamToolCall)
    (all : List ToolCallAccumulator)
    → accumulate_all known (xs ++ ys) ≡ some all
    → (mid : List ToolCallAccumulator) × (accumulate_all known xs ≡ some mid)
      × (accumulate_all mid ys ≡ some all)
unfolding accumulate_all
accumulate_all-append known [] ys all h = (known, refl, h)
accumulate_all-append known (x ∷ xs) ys all h = elim (Option-cases (accumulate known x x.index)) [
  | inl failed ↦ absurd (ground (arith, failed, h))
  | inr (known', e) ↦
      let (mid, h', h'') = accumulate_all-append known' xs ys all (ground (arith, e, h)) in
      (mid, ground (arith, e, h'), h'')
]

module _ (codec : Codec) (decode : String → Result StreamResponse) where
  choose_going :
      (p : Progress) (choices : List StreamChoice) (mid : List ToolCallAccumulator)
      → accumulate_all p.tool_calls (calls (first_of choices)) ≡ some mid
      → finish (first_of choices) ≡ none
      → choose codec decode p choices
        ≡ (map partial (spoken (first_of choices)), next (record p { tool_calls = mid }))
  unfolding accumulate_all
  choose_going p [] mid a f = cc (a)
  choose_going p (choice ∷ _) mid a f = ground (arith, a, f)

  choose_finishing :
      (p : Progress) (choices : List StreamChoice) (all : List ToolCallAccumulator)
      (reason : String)
      → accumulate_all p.tool_calls (calls (first_of choices)) ≡ some all
      → finish (first_of choices) ≡ some reason
      → choose codec decode p choices ≡ (
        map partial (spoken (first_of choices))
            ++ respond (final_response codec (record p { tool_calls = all }) reason) ∷ [],
        left,
      )
  choose_finishing p [] all reason a f = ground (arith, f)
  choose_finishing p (choice ∷ _) all reason a f = ground (arith, a, f)

  step_chunk :
      (p : Progress) (event : Event) (chunk : StreamResponse)
      → event.payload ≢ "[DONE]"
      → decode event.payload ≡ ok chunk
      → step codec decode p (ok event)
        ≡ choose codec decode
            (record p { final_usage = latest_usage chunk.usage p.final_usage })
            chunk.choices
  unfolding step
  step_chunk p event chunk d c = rw (eq-false_of_ne event.payload "[DONE]" d, c, step) refl

  run_finishing :
      (p : Progress) (event : Event) (chunk : StreamResponse) (later : List (Result Event))
      (all : List ToolCallAccumulator) (reason : String)
      → event.payload ≢ "[DONE]"
      → decode event.payload ≡ ok chunk
      → accumulate_all p.tool_calls (calls (first_of chunk.choices)) ≡ some all
      → finish (first_of chunk.choices) ≡ some reason
      → run (step codec decode) p (ok event ∷ later) ≡ (
        map partial (spoken (first_of chunk.choices))
            ++ respond (
                final_response codec
                  (record {
                    tool_calls = all;
                    final_usage = latest_usage chunk.usage p.final_usage;
                  })
                  reason)
              ∷ [],
        left,
      )
  unfolding run
  run_finishing p event chunk later all reason d c a f =
      rw
        (
          step_chunk p event chunk d c,
          choose_finishing (record p { final_usage = latest_usage chunk.usage p.final_usage })
              chunk.choices all reason a f,
          run,
        )
        refl

  run_chunks :
      (p : Progress) (before : List Event) (chunks : List StreamResponse) (event : Event)
      (chunk : StreamResponse) (later : List (Result Event)) (all : List ToolCallAccumulator)
      (reason : String)
      → Holds decode before chunks
      → event.payload ≢ "[DONE]"
      → decode event.payload ≡ ok chunk
      → accumulate_all p.tool_calls (all_calls (chunks ++ chunk ∷ [])) ≡ some all
      → finish (first_of chunk.choices) ≡ some reason
      → run (step codec decode) p (map ok before ++ ok event ∷ later) ≡ (
        map partial (all_spoken (chunks ++ chunk ∷ []))
            ++ respond (
                final_response codec
                  (record {
                    tool_calls = all;
                    final_usage = last_usage p.final_usage (chunks ++ chunk ∷ []);
                  })
                  reason)
              ∷ [],
        left,
      )
  run_chunks p _ _ event chunk later all reason holds_none d c a f =
      rw (append-nil (spoken (first_of chunk.choices))) (
        run_finishing p event chunk later all reason d c
          (subst (λ xs. accumulate_all p.tool_calls xs ≡ some all) (append-nil _) a) f)
  run_chunks p _ _ event chunk later all reason (holds_one e ch {before} {chunks} d' c' f' h) d c a
        f =
      let (mid, a', a'') =
        accumulate_all-append p.tool_calls (calls (first_of ch.choices))
          (all_calls (chunks ++ chunk ∷ [])) all a in
      let p' : Progress = record {
        tool_calls = mid;
        final_usage = latest_usage ch.usage p.final_usage;
      } in
      let q : Progress = record p { final_usage = latest_usage ch.usage p.final_usage } in
      let now = step_chunk p e ch d' c' ∙ choose_going q ch.choices mid a' f' in
      run-next (step codec decode) p (ok e) (map ok before ++ ok event ∷ later) p'
        (ap (λ r. r.1) now)
      ∙ rw
          (
            now,
            run_chunks p' before chunks event chunk later all reason h d c a'' f,
            map-append partial (spoken (first_of ch.choices)) (all_spoken (chunks ++ chunk ∷ [])),
            append_assoc,
          )
          refl

  -- If a stream holds chunks, none of them with a negative index, up to the first that has a finish
  -- reason, then the consumer gets, up to the item on which it leaves, the texts of the chunks that are
  -- not empty, in order, and last the response that completes the turn: with the tool calls that all
  -- their deltas make, and the last usage among these chunks. What follows is not read, so usage that
  -- only a later chunk reports is lost.
  pub stream-completes :
      {S : Type 0} (yield : Yield S Item) (s : S) (body : Stream) (before : List Event)
      (chunks : List StreamResponse) (event : Event) (chunk : StreamResponse)
      (later : List (Result Event)) (all : List ToolCallAccumulator) (reason : String)
      → events body ≡ map ok before ++ ok event ∷ later
      → Holds decode before chunks
      → event.payload ≢ "[DONE]"
      → decode event.payload ≡ ok chunk
      → accumulate_all [] (all_calls (chunks ++ chunk ∷ [])) ≡ some all
      → finish (first_of chunk.choices) ≡ some reason
      → consume codec decode yield s body ≡ (
        (feed yield s (
            map partial (all_spoken (chunks ++ chunk ∷ []))
            ++ respond (
                final_response codec
                  (record {
                    tool_calls = all;
                    final_usage = last_usage none (chunks ++ chunk ∷ []);
                  })
                  reason)
              ∷ [])).0,
        left,
      )
  stream-completes yield s body before chunks event chunk later all reason read h d c a f =
      consume-run codec decode yield s body
      ∙ ap (λ xs. given yield s (run (step codec decode) at_start xs)) read
      ∙ ap (given yield s)
          (run_chunks at_start before chunks event chunk later all reason h d c a f)
      ∙ settle_left _
