-- ===== src/Tests/Served.antt =====
-- A streamed request to Anthropic's API from end to end.
use crated.Prelude.{
  some, ℕ, suc, ◌<◌, false, true, String, List, [], ◌∷◌, ◌++◌, none, foreign, ok, err, Yield, feed,
  ◌≡◌, ◌≢◌, ◌==◌, refl, arith, pos, eq_iff, All,
}
use crated.Prelude.Text.{trim_space}
use Prim.Native.String.{len}
use crated.Json.{Codec}
use crated.Genai.{LlmRequest, Item, respond}
use crated.HttpClient.{Response}
use crated.HttpClient.Exchange.{World}
use crated.Sse.Scanner.{drop_cr, max_line}
use crated.Sse.RoundTrip.{Message, encode_all, IsCanonical, IsLine, has_newline, stream_of}
use crated.Provider.Rounds.{left}
use crated.Provider.Anthropic.{blank_block}
use crated.Provider.Anthropic.Stream.{Decoders}
use crated.Provider.Anthropic.Model.{Model, Wire, api_request, post, generate_streaming}
use crated.Provider.Anthropic.Answer.{IsPiece}
use crated.Provider.Anthropic.Completion.{finished, texts}
use crated.HttpClient.Streaming.{streaming}
use crated.Provider.Anthropic.Served.{generate_streaming-served}

abbrev message : String → String → Message
message type text = record { type = some type; first = text; more = [] }

abbrev before : List Message
before = message "content_block_delta" "hi" ∷ message "message_delta" "max_tokens" ∷ []

abbrev sent : List Message
sent = before ++ message "message_stop" "{}" ∷ message "ping" "{}" ∷ []

is_canonical :
    (type text : String)
    → trim_space type ≡ type
    → trim_space text ≡ text
    → text ≢ ""
    → IsCanonical (message type text)
is_canonical type text t f g = record {
  type_trimmed = t;
  first_trimmed = f;
  first_given = g;
  more_trimmed = tt;
}

given : (s : String) → (s == "") ≡ false → s ≢ ""
given s h = ground (arith, h, eq_iff s "")

sent-IsCanonical : All IsCanonical sent
unfolding trim_space
sent-IsCanonical = (
  is_canonical "content_block_delta" "hi" refl refl (given "hi" refl),
  (
    is_canonical "message_delta" "max_tokens" refl refl (given "max_tokens" refl),
    (
      is_canonical "message_stop" "{}" refl refl (given "{}" refl),
      (is_canonical "ping" "{}" refl refl (given "{}" refl), tt),
    ),
  ),
)

sent-IsLine : All IsLine (encode_all sent)
unfolding drop_cr
sent-IsLine =
    let line : (l : String) → has_newline l ≡ false → drop_cr l ≡ l → len l < max_line → IsLine l =
      λ l n r f. record { no_newline = n; no_return = r; fits = f } in
    let blank = line "" refl refl (omega arith) in
    (
      line "event: content_block_delta" refl refl (omega arith),
      (
        line "data: hi" refl refl (omega arith),
        (
          blank,
          (
            line "event: message_delta" refl refl (omega arith),
            (
              line "data: max_tokens" refl refl (omega arith),
              (
                blank,
                (
                  line "event: message_stop" refl refl (omega arith),
                  (
                    line "data: {}" refl refl (omega arith),
                    (
                      blank,
                      (
                        line "event: ping" refl refl (omega arith),
                        (line "data: {}" refl refl (omega arith), (blank, tt)),
                      ),
                    ),
                  ),
                ),
              ),
            ),
          ),
        ),
      ),
    )

-- A text for every delta.
abbrev decoders : Decoders
decoders = record {
  start = λ s. ok (record { index = pos 0; content_block = blank_block });
  delta = λ s. ok (record {
    index = pos 0;
    delta = record { type = "text_delta"; text = s; partial_json = "" };
  });
  stop = λ s. ok (record { index = pos 0 });
  message = λ s. ok (record { stop_reason = s; usage = none });
}

abbrev wire : Wire
wire = record {
  marshal = λ r. ok (1 ∷ []);
  unmarshal = λ b. err (foreign "none");
  decoders = decoders;
  refused = λ m u. none;
  stream_of = λ r. stream_of (encode_all sent);
}

abbrev answered : Response
answered = record { status_code = 200; body = record { content = 1 ∷ []; failure = none } }

-- The world counts the requests.
abbrev world : World ℕ
world = record {
  transport = λ w t r. (suc w, ok answered);
  wait = λ w d. (w, none);
  random = λ w n. (w, 0);
  to_int64 = λ n. pos n;
  text = λ b. "body";
}

abbrev codec : Codec
codec = record { marshal = λ j. none; unmarshal = λ s. none }

abbrev model : Model
model = record {
  model_id = "claude";
  api_key = "key";
  base_url = "https://api.anthropic.com/v1";
  config = record {
    name = "main";
    model = "anthropic/claude";
    temperature = none;
    max_tokens = none;
    top_p = none;
  };
  client = record {
    http_timeout = pos 0;
    stream_timeout = none;
    opts = record { timeout = pos 0; max_body_size = pos 10; max_retries = pos 3; logger = none };
  };
}

abbrev request : LlmRequest
request = record { contents = []; config = none }

request_made :
    api_request world wire codec model request true ≡ ok (post world wire codec model (1 ∷ []))
unfolding api_request
request_made = refl

abbrev counting : Yield ℕ Item
counting n x = (suc n, true)

generate_streaming-served_example :
    (pieces : List Item) × (generate_streaming world wire codec model counting 0 0 request ≡ (
      streaming model.client,
      1,
      (feed counting 0
          (pieces ++ respond (finished (record { reason = "max_tokens"; usage = none })) ∷ [])).0,
      left,
    ))
    × All (IsPiece codec) pieces
    × (texts pieces ≡ "hi" ∷ [])
generate_streaming-served_example =
    generate_streaming-served world wire codec model counting 0 1 0 request
      (post world wire codec model (1 ∷ [])) answered before (message "message_stop" "{}")
      (message "ping" "{}" ∷ []) request_made refl refl refl sent-IsCanonical sent-IsLine
      (refl, (refl, tt)) refl
