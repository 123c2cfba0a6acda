-- ===== src/Provider/OpenAi/Model.antt =====
-- The model of internal/runtime/providers/openai/openai.go: `CreateModel`, and `GenerateContent` in
-- both its forms, over the HTTP client and the outside world of HttpClient.Exchange.
use Prim.Native.Char.{Char, code}
use crated.Prelude.{
  ◌*◌, Bool, true, false, not, ◌&&◌, String, [], ◌∷◌, Option, none, some, Error, errorf, wrapf, num,
  str, Result, ok, err, Yield, if◌then◌else◌, ◌==◌, eqb, pos,
}
use crated.Prelude.Text.{◌<>◌, trim_right}
use crated.Dict.{insert}
use crated.Json.{Codec}
use crated.Genai.{ModelConfig, LlmRequest, Item, respond, fail}
use crated.Sse.Scanner.{Stream}
use crated.HttpClient.{Bytes, Reader, Request, Response, Client, second}
use crated.HttpClient.Body.{read_body}
use crated.HttpClient.Exchange.{World, do_request, do_stream}
use crated.Models.{ConnectConfig}
use crated.Provider.OpenAi.{ChatRequest, ChatResponse, StreamResponse}
use crated.Provider.OpenAi.Request.{if_empty, build_request}
use crated.Provider.OpenAi.Response.{convert_sync_response}
use crated.Provider.Rounds.{Flow, left}
use crated.Provider.OpenAi.Stream.{Progress, consume}

abbrev pub default_base_url : String
default_base_url = "https://api.openai.com/v1"

abbrev pub default_api_key_env : String
default_api_key_env = "OPENAI_API_KEY"

-- `openaiModel`
pub record Model : Type 0 where
  pub model_id : String
  pub api_key : String
  pub base_url : String
  pub config : ModelConfig
  pub client : Client

-- `Name`
abbrev pub name : Model → String
name m = "openai/" <> m.model_id

abbrev pub is_slash : Char → Bool
is_slash c = eqb (code c) b'/'

-- The process's environment is `getenv`, with "" for a variable that is not set.
module _ (getenv : String → String) where
  unfoldable pub host_of : String → String
  unfolding trim_right
  host_of host = if host == "" then "" else trim_right is_slash host <> "/v1"

  -- The host's override, then the runtime configuration, then the default.
  unfoldable pub base_of : ConnectConfig → String
  unfolding host_of
  base_of conn =
      let host = if conn.host_env_var == "" then "" else host_of (getenv conn.host_env_var) in
      if_empty (if_empty host conn.api_base) default_base_url

  abbrev pub key_env_of : ConnectConfig → String
  key_env_of conn = if_empty conn.auth_env_var default_api_key_env

  -- `CreateModel`; the logger is named by the attributes that it is made with.
  unfoldable pub create_model : String → ConnectConfig → ModelConfig → Result Model
  unfolding base_of
  create_model model_id conn mc =
      let key_env = key_env_of conn in
      let api_key = getenv key_env in
      let base = base_of conn in
      if api_key == "" && base == default_base_url
      then err (
          errorf
            "%s is not set — required for model %q (set it in your environment or use --env-file)"
            (str key_env ∷ str model_id ∷ []))
      else ok (record {
        model_id = model_id;
        api_key = api_key;
        base_url = base;
        config = mc;
        client = crated.HttpClient.new (record {
          timeout = pos (120 * second);
          max_body_size = pos 0;
          max_retries = pos 0;
          logger = some ("openai/" <> model_id);
        });
      })

-- `setHeaders`, on the headers of a new request.
unfoldable pub set_headers : Model → Request → Request
set_headers m req =
    let typed = insert "Content-Type" "application/json" req.headers in
    record req {
      headers =
          if m.api_key == "" then typed else insert "Authorization" ("Bearer " <> m.api_key) typed;
    }

-- encoding/json for this API, http.NewRequest's check of a method and URL (`some` is its error), and
-- the bytes of a body as text.
pub record Wire : Type 0 where
  pub marshal : ChatRequest → Result Bytes
  pub unmarshal : Bytes → Result ChatResponse
  pub unmarshal_chunk : String → Result StreamResponse
  pub refused : String → String → Option Error
  pub stream_of : Reader → Stream

-- What either form of `GenerateContent` comes to.
pub data Generated (W S : Type 0) : Type 0 where
  at_once : Option (W × S) → Generated W S
  streamed : Client × W × S × Flow Progress → Generated W S

module _ {W : Type 0} (world : World W) (wire : Wire) (codec : Codec) (m : Model) where
  open world use {text}
  open wire use {marshal, unmarshal, unmarshal_chunk, refused, stream_of}

  unfoldable pub post : Bytes → Request
  unfolding set_headers
  post body =
      let reader : Reader = record { content = body; failure = none } in
      set_headers m (record {
        method = "POST";
        url = m.base_url <> "/chat/completions";
        headers = [];
        body = some reader;
        get_body = some (ok reader);
      })

  -- The request to the API, with the headers set.
  unfoldable pub api_request : LlmRequest → Bool → Result Request
  unfolding build_request post
  api_request req stream = elim (marshal (build_request codec m.model_id m.config req stream)) [
    | err e ↦ err (wrapf "marshaling openai request: %w" [] e)
    | ok body ↦ elim (refused "POST" (m.base_url <> "/chat/completions")) [
      | some e ↦ err (wrapf "creating openai request: %w" [] e)
      | none ↦ ok (post body)
    ]
  ]

  -- What is yielded for a response.
  unfoldable pub sync_response : Response → Item
  unfolding read_body convert_sync_response
  sync_response resp = elim (read_body m.client.opts.max_body_size resp.body) [
    | err e ↦ fail (wrapf "reading openai response: %w" [] e)
    | ok body ↦
        if not (eqb resp.status_code 200)
        then fail
            (errorf "openai API error (HTTP %d): %s" (num resp.status_code ∷ str (text body) ∷ []))
        else elim (unmarshal body) [
          | err e ↦ fail (wrapf "unmarshaling openai response: %w" [] e)
          | ok r ↦ respond (convert_sync_response codec r)
        ]
  ]

  -- The one item that `generateSync` yields; `none` is a panic: in the client's wait, or at
  -- `resp.Body` of a nil response.
  unfoldable pub sync_item : W → LlmRequest → Option (W × Item)
  unfolding api_request sync_response do_request
  sync_item w req = elim (api_request req false) [
    | err e ↦ some (w, fail e)
    | ok http ↦ elim (do_request world m.client w http) [
      | none ↦ none
      | some (v, err e) ↦ some (v, fail (wrapf "openai API call failed: %w" [] e))
      | some (v, ok none) ↦ none
      | some (v, ok (some resp)) ↦ some (v, sync_response resp)
    ]
  ]

  module _ {S : Type 0} (yield : Yield S Item) where
    -- `generateSync`
    unfoldable pub generate_sync : W → S → LlmRequest → Option (W × S)
    unfolding sync_item
    generate_sync w s req = elim (sync_item w req) [
      | none ↦ none
      | some (v, item) ↦ some (v, (yield s item).0)
    ]

    -- `generateStreaming`: the client, the world and the consumer behind it, and how it ended.
    unfoldable pub generate_streaming : W → S → LlmRequest → Client × W × S × Flow Progress
    unfolding api_request do_stream consume
    generate_streaming w s req = elim (api_request req true) [
      | err e ↦ (m.client, w, (yield s (fail e)).0, left)
      | ok http ↦
          let (c, v, result) = do_stream world m.client w http in
          elim result [
            | err e ↦ (c, v, (yield s (fail (wrapf "openai stream failed: %w" [] e))).0, left)
            | ok resp ↦
                let (t, flow) = consume codec unmarshal_chunk yield s (stream_of resp.body) in
                (c, v, t, flow)
          ]
    ]

    -- `GenerateContent`
    unfoldable pub generate_content : W → S → LlmRequest → Bool → Generated W S
    generate_content w s req streaming =
        if streaming then streamed (generate_streaming w s req) else at_once (generate_sync w s req)
