-- ===== src/Tests/Chunks.antt =====
-- A streamed request to OpenAI's API from end to end.
use crated.Prelude.{
  ℕ, suc, ◌<◌, false, true, String, List, [], ◌∷◌, none, foreign, Result, ok, err, feed, ◌≡◌, ◌≢◌,
  ◌==◌, refl, arith, pos, eq_iff, All, if◌then◌else◌,
}
use crated.Prelude.Text.{trim_space}
use Prim.Native.String.{len}
use crated.Genai.{LlmRequest, respond}
use crated.HttpClient.{Response}
use crated.HttpClient.Exchange.{World}
use crated.HttpClient.Streaming.{streaming}
use crated.Sse.Scanner.{drop_cr, max_line}
use crated.Sse.RoundTrip.{
  Message, event_of, encode_all, IsCanonical, IsLine, has_newline, stream_of,
}
use crated.Provider.Rounds.{left}
use crated.Provider.OpenAi.{StreamResponse}
use crated.Provider.OpenAi.Stream.{final_response}
use crated.Provider.OpenAi.Model.{Model, Wire, api_request, post, generate_streaming}
use crated.Provider.OpenAi.Completion.{holds_none, holds_one, partial}
use crated.Provider.OpenAi.Served.{generate_streaming-chunks}
use crated.Tests.Streams.{two_at_most}
use crated.Tests.OpenAi.{both_calls, codec, decode, chunk, accumulated}

abbrev text_chunk : StreamResponse
text_chunk = record {
  choices =
      record {
        delta = record { role = "assistant"; content = "well, "; tool_calls = [] };
        finish_reason = none;
      }
      ∷ [];
  usage = none;
}

abbrev decode_chunk : String → Result StreamResponse
decode_chunk s = if s == "text" then ok text_chunk else decode s

not_done : (s : String) → (s == "[DONE]") ≡ false → s ≢ "[DONE]"
not_done s h = ground (arith, h, eq_iff s "[DONE]")

-- A text, then the chunk that finishes, then the usage, which comes too late.
abbrev message : String → Message
message text = record { type = none; first = text; more = [] }

abbrev sent : List Message
sent = message "text" ∷ message "last" ∷ message "usage" ∷ []

message-IsCanonical :
    (text : String) → trim_space text ≡ text → (text == "") ≡ false → IsCanonical (message text)
unfolding trim_space
message-IsCanonical text f g = record {
  type_trimmed = refl;
  first_trimmed = f;
  first_given = ground (arith, g, eq_iff text "");
  more_trimmed = tt;
}

sent-IsCanonical : All IsCanonical sent
unfolding trim_space
sent-IsCanonical = (
  message-IsCanonical "text" refl refl,
  (message-IsCanonical "last" refl refl, (message-IsCanonical "usage" refl refl, tt)),
)

sent-IsLine : All IsLine (encode_all sent)
unfolding drop_cr
sent-IsLine =
    let line : (l : String) → has_newline l ≡ false → drop_cr l ≡ l → len l < max_line → IsLine l =
      λ l n r f. record { no_newline = n; no_return = r; fits = f } in
    let blank = line "" refl refl (omega arith) in
    (
      line "data: text" refl refl (omega arith),
      (
        blank,
        (
          line "data: last" refl refl (omega arith),
          (blank, (line "data: usage" refl refl (omega arith), (blank, tt))),
        ),
      ),
    )

abbrev wire : Wire
wire = record {
  marshal = λ r. ok (1 ∷ []);
  unmarshal = λ b. err (foreign "none");
  unmarshal_chunk = decode_chunk;
  refused = λ m u. none;
  stream_of = λ r. stream_of (encode_all sent);
}

abbrev answered : Response
answered = record { status_code = 200; body = record { content = 1 ∷ []; failure = none } }

-- The world counts the requests.
abbrev world : World ℕ
world = record {
  transport = λ w t r. (suc w, ok answered);
  wait = λ w d. (w, none);
  random = λ w n. (w, 0);
  to_int64 = λ n. pos n;
  text = λ b. "body";
}

abbrev model : Model
model = record {
  model_id = "gpt";
  api_key = "key";
  base_url = "https://api.openai.com/v1";
  config = record {
    name = "main";
    model = "openai/gpt";
    temperature = none;
    max_tokens = none;
    top_p = none;
  };
  client = record {
    http_timeout = pos 0;
    stream_timeout = none;
    opts = record { timeout = pos 0; max_body_size = pos 10; max_retries = pos 3; logger = none };
  };
}

abbrev request : LlmRequest
request = record { contents = []; config = none }

request_made :
    api_request world wire codec model request true ≡ ok (post world wire codec model (1 ∷ []))
unfolding api_request
request_made = refl

generate_streaming-chunks_example :
    generate_streaming world wire codec model two_at_most 0 0 request ≡ (
      streaming model.client,
      1,
      (feed two_at_most 0 (
          partial "well, "
          ∷ partial "hi"
          ∷ respond
              (final_response codec (record { tool_calls = both_calls; final_usage = none }) "stop")
          ∷ [])).0,
      left,
    )
generate_streaming-chunks_example =
    generate_streaming-chunks world wire codec model two_at_most 0 1 0 request
      (post world wire codec model (1 ∷ [])) answered (message "text" ∷ []) (text_chunk ∷ [])
      (message "last") chunk (message "usage" ∷ []) both_calls "stop" request_made refl refl refl
      sent-IsCanonical sent-IsLine
      (holds_one (event_of (message "text")) text_chunk (not_done "text" refl) refl refl holds_none)
      (not_done "last" refl) refl accumulated refl
