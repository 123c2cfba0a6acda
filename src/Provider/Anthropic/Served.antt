-- ===== src/Provider/Anthropic/Served.antt =====
-- A streamed request of internal/runtime/providers/anthropic/anthropic.go from end to end: through the
-- client of internal/httpclient/client.go and the reader of internal/sse/reader.go.
use crated.Prelude.{List, [], ◌∷◌, ◌++◌, map, ok, All, true, ◌≡◌, ap, ◌∙◌, arith, Yield, feed, pos}
use crated.Json.{Codec}
use crated.Genai.{LlmRequest, Item, respond}
use crated.HttpClient.{Request, Response}
use crated.HttpClient.Exchange.{World}
use crated.HttpClient.Streaming.{streaming, do_stream_ok}
use crated.Sse.Pull.{events}
use crated.Sse.RoundTrip.{
  Message, type_name, event_of, encode_all, IsCanonical, IsLine, events-encode_all, events-split,
  stream_of,
}
use crated.Provider.Rounds.{left}
use crated.Provider.Anthropic.Stream.{at_start}
use crated.Provider.Anthropic.Model.{Model, Wire, api_request, generate_streaming}
use crated.Provider.Anthropic.Answer.{IsPiece}
use crated.Provider.Anthropic.Completion.{ending, tell_all, is_sound, finished, texts, all_said}
use crated.Provider.Anthropic.Completion.Whole.{consume-completes}

module _ {W : Type 0} (world : World W) (wire : Wire) (codec : Codec) (m : Model) where
  -- If the endpoint answers a streamed request with status 200 and events as a server writes them
  -- (each with a type line or without, trimmed data lines of which the first is not empty, and a
  -- blank line, all within the scanner's limit), and up to a `message_stop` each event's data can
  -- be decoded and has no negative index, then the consumer gets, up to the item on which it
  -- leaves, texts and tool calls only, the texts being those of the text deltas in order, and
  -- behind them the response that completes the turn, with the reason of the last `message_delta`
  -- and the last usage that one brought; one request is sent, under no timeout, and nothing panics.
  pub generate_streaming-served :
      {S : Type 0} (yield : Yield S Item) (w v : W) (s : S) (req : LlmRequest) (http : Request)
      (resp : Response) (before : List Message) (stop : Message) (later : List Message)
      → api_request world wire codec m req true ≡ ok http
      → world.transport w (pos 0) http ≡ (v, ok resp)
      → resp.status_code ≡ 200
      → wire.stream_of resp.body ≡ stream_of (encode_all (before ++ stop ∷ later))
      → All IsCanonical (before ++ stop ∷ later)
      → All IsLine (encode_all (before ++ stop ∷ later))
      → All (λ event. is_sound wire.decoders event ≡ true) (map event_of before)
      → type_name stop.type ≡ "message_stop"
      → (pieces : List Item) × (generate_streaming world wire codec m yield w s req ≡ (
        streaming m.client,
        v,
        (feed yield s (
            pieces
            ++ respond (finished (tell_all wire.decoders (ending at_start) (map event_of before)))
              ∷ [])).0,
        left,
      ))
        × All (IsPiece codec) pieces
        × (texts pieces ≡ all_said wire.decoders (map event_of before))
  unfolding generate_streaming
  generate_streaming-served yield w v s req http resp before stop later made sent status served
        canonical lines sound is =
      let read =
        ap events served
        ∙ events-encode_all (before ++ stop ∷ later) canonical lines
        ∙ events-split before stop later in
      let (pieces, given, all, said) =
        consume-completes codec wire.decoders yield s (wire.stream_of resp.body)
          (map event_of before) (event_of stop) (map (λ m. ok (event_of m)) later) read sound is in
      (
        pieces,
        ground (arith, made, do_stream_ok world m.client w v http resp sent status, given),
        all,
        said,
      )
