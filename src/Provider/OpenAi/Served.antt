-- ===== src/Provider/OpenAi/Served.antt =====
-- A streamed request of internal/runtime/providers/openai/openai.go from end to end: through the client
-- of internal/httpclient/client.go and the reader of internal/sse/reader.go.
use crated.Prelude.{
  String, List, [], ◌∷◌, ◌++◌, map, ok, some, none, All, true, pos, ◌≡◌, ◌≢◌, ap, ◌∙◌, arith, Yield,
  feed,
}
use crated.Json.{Codec}
use crated.Genai.{LlmRequest, Item, respond}
use crated.HttpClient.{Request, Response}
use crated.HttpClient.Exchange.{World}
use crated.HttpClient.Streaming.{streaming, do_stream_ok}
use crated.Sse.Pull.{events}
use crated.Sse.RoundTrip.{
  Message, event_of, encode_all, IsCanonical, IsLine, events-encode_all, events-split, stream_of,
}
use crated.Provider.Rounds.{left}
use crated.Provider.OpenAi.{StreamResponse}
use crated.Provider.OpenAi.Stream.{ToolCallAccumulator, accumulate_all, final_response}
use crated.Provider.OpenAi.Model.{Model, Wire, api_request, generate_streaming}
use crated.Provider.OpenAi.Completion.{
  Holds, first_of, finish, all_calls, all_spoken, last_usage, partial,
}
use crated.Provider.OpenAi.Completion.Whole.{stream-completes}

module _ {W : Type 0} (world : World W) (wire : Wire) (codec : Codec) (m : Model) where
  -- If the endpoint answers a streamed request with status 200 and chunks as a server writes them
  -- (each an event of trimmed data lines of which the first is not empty, with a type line or
  -- without, and a blank line, all within the scanner's limit), which can be decoded and have no
  -- negative index up to the first that has a finish reason, then the consumer gets, up to the item
  -- on which it leaves, the texts of these chunks that are not empty, in order, and last the
  -- response that completes the turn: with the tool calls that all their deltas make, and the last
  -- usage among them. What follows is not read, so usage that only a later chunk reports is lost.
  -- One request is sent, under no timeout, and nothing panics.
  pub generate_streaming-chunks :
      {S : Type 0} (yield : Yield S Item) (w v : W) (s : S) (req : LlmRequest) (http : Request)
      (resp : Response) (before : List Message) (chunks : List StreamResponse) (final : Message)
      (chunk : StreamResponse) (later : List Message) (all : List ToolCallAccumulator)
      (reason : String)
      → api_request world wire codec m req true ≡ ok http
      → world.transport w (pos 0) http ≡ (v, ok resp)
      → resp.status_code ≡ 200
      → wire.stream_of resp.body ≡ stream_of (encode_all (before ++ final ∷ later))
      → All IsCanonical (before ++ final ∷ later)
      → All IsLine (encode_all (before ++ final ∷ later))
      → Holds wire.unmarshal_chunk (map event_of before) chunks
      → (event_of final).payload ≢ "[DONE]"
      → wire.unmarshal_chunk (event_of final).payload ≡ ok chunk
      → accumulate_all [] (all_calls (chunks ++ chunk ∷ [])) ≡ some all
      → finish (first_of chunk.choices) ≡ some reason
      → generate_streaming world wire codec m yield w s req ≡ (
        streaming m.client,
        v,
        (feed yield s (
            map partial (all_spoken (chunks ++ chunk ∷ []))
            ++ respond (
                final_response codec
                  (record {
                    tool_calls = all;
                    final_usage = last_usage none (chunks ++ chunk ∷ []);
                  })
                  reason)
              ∷ [])).0,
        left,
      )
  unfolding generate_streaming
  generate_streaming-chunks yield w v s req http resp before chunks final chunk later all reason
        made sent status served canonical lines holds d c a f =
      let read =
        ap events served
        ∙ events-encode_all (before ++ final ∷ later) canonical lines
        ∙ events-split before final later in
      let given =
        stream-completes codec wire.unmarshal_chunk yield s (wire.stream_of resp.body)
          (map event_of before) chunks (event_of final) chunk (map (λ n. ok (event_of n)) later) all
          reason read holds d c a f in
      ground (arith, made, do_stream_ok world m.client w v http resp sent status, given)
