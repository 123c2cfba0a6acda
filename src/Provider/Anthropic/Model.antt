-- ===== src/Provider/Anthropic/Model.antt =====
-- The model of internal/runtime/providers/anthropic/anthropic.go: `CreateModel`, and `GenerateContent`
-- in both its forms, over the HTTP client and the outside world of HttpClient.Exchange.
use crated.Prelude.{
  ◌*◌, not, ◌&&◌, Bool, true, false, String, [], ◌∷◌, Option, none, some, Error, errorf, wrapf, num,
  str, Result, ok, err, Yield, if◌then◌else◌, ◌==◌, ◌≡◌, ◌≢◌, eqb, pos, arith, eq_iff,
}
use crated.Prelude.Text.{◌<>◌}
use crated.Dict.{lookup, insert, lookup-insert}
use crated.Json.{Codec}
use crated.Genai.{ModelConfig, LlmRequest, Item, respond, fail}
use crated.Sse.Scanner.{Stream}
use crated.HttpClient.{Bytes, Reader, Request, Response, Client, second}
use crated.HttpClient.Body.{read_body}
use crated.HttpClient.Exchange.{World, do_request, do_stream}
use crated.Models.{ConnectConfig}
use crated.Provider.Anthropic.{MessagesRequest, MessagesResponse}
use crated.Provider.Anthropic.Request.{build_request}
use crated.Provider.Anthropic.Response.{convert_sync_response}
use crated.Provider.Rounds.{Flow, left}
use crated.Provider.Anthropic.Stream.{Decoders, Progress, consume}

abbrev pub default_base_url : String
default_base_url = "https://api.anthropic.com/v1"

abbrev pub default_api_key_env : String
default_api_key_env = "ANTHROPIC_API_KEY"

abbrev pub api_version : String
api_version = "2023-06-01"

-- `anthropicModel`
pub record Model : Type 0 where
  pub model_id : String
  pub api_key : String
  pub base_url : String
  pub config : ModelConfig
  pub client : Client

-- `Name`
abbrev pub name : Model → String
name m = "anthropic/" <> m.model_id

abbrev pub or_default : String → String → String
or_default s d = if s == "" then d else s

abbrev pub key_env_of : ConnectConfig → String
key_env_of conn = or_default conn.auth_env_var default_api_key_env

-- `CreateModel`, in an environment that gives "" for a variable that is not set; the logger is named
-- by the attributes that it is made with.
unfoldable pub create_model :
    (String → String) → String → ConnectConfig → ModelConfig → Result Model
create_model getenv model_id conn mc =
    let key_env = key_env_of conn in
    let api_key = getenv key_env in
    let base = or_default conn.api_base default_base_url in
    if api_key == "" && base == default_base_url
    then err (
        errorf
          "%s is not set — required for model %q (set it in your environment or use --env-file)"
          (str key_env ∷ str model_id ∷ []))
    else ok (record {
      model_id = model_id;
      api_key = api_key;
      base_url = base;
      config = mc;
      client = crated.HttpClient.new (record {
        timeout = pos (120 * second);
        max_body_size = pos 0;
        max_retries = pos 0;
        logger = some ("anthropic/" <> model_id);
      });
    })

-- `setHeaders`; the name "x-api-key" is as http.Header writes it.
unfoldable pub set_headers : Model → Request → Request
set_headers m req =
    let typed = insert "Content-Type" "application/json" req.headers in
    let keyed = if m.api_key == "" then typed else insert "X-Api-Key" m.api_key typed in
    record req { headers = insert "Anthropic-Version" api_version keyed }

-- A model that was made talks to Anthropic's own endpoint only with a key, and every request says
-- which version of the API it is for.
pub create_model-keyed :
    (getenv : String → String) (id : String) (conn : ConnectConfig) (mc : ModelConfig) (m : Model)
    (req : Request)
    → create_model getenv id conn mc ≡ ok m
    → m.base_url ≡ default_base_url
    → (m.api_key ≢ "")
      × (lookup "X-Api-Key" (set_headers m req).headers ≡ some (getenv (key_env_of conn)))
      × (lookup "Anthropic-Version" (set_headers m req).headers ≡ some api_version)
unfolding create_model set_headers
create_model-keyed getenv id conn mc m req h base =
    let typed = insert "Content-Type" "application/json" req.headers in
    ground (
      arith,
      eq_iff m.api_key "",
      eq_iff m.base_url default_base_url,
      lookup-insert "X-Api-Key" "X-Api-Key" m.api_key typed,
      lookup-insert "Anthropic-Version" "X-Api-Key" api_version
          (insert "X-Api-Key" m.api_key typed),
      lookup-insert "Anthropic-Version" "Anthropic-Version" api_version
          (insert "X-Api-Key" m.api_key typed),
    )

-- encoding/json for this API, http.NewRequest's check of a method and URL (`some` is its error), and
-- the bytes of a body as text.
pub record Wire : Type 0 where
  pub marshal : MessagesRequest → Result Bytes
  pub unmarshal : Bytes → Result MessagesResponse
  pub decoders : Decoders
  pub refused : String → String → Option Error
  pub stream_of : Reader → Stream

-- What either form of `GenerateContent` comes to.
pub data Generated (W S : Type 0) : Type 0 where
  at_once : Option (W × S) → Generated W S
  streamed : Client × W × S × Flow Progress → Generated W S

module _ {W : Type 0} (world : World W) (wire : Wire) (codec : Codec) (m : Model) where
  open world use {text}
  open wire use {marshal, unmarshal, decoders, refused, stream_of}

  unfoldable pub post : Bytes → Request
  unfolding set_headers
  post body =
      let reader : Reader = record { content = body; failure = none } in
      set_headers m (record {
        method = "POST";
        url = m.base_url <> "/messages";
        headers = [];
        body = some reader;
        get_body = some (ok reader);
      })

  -- The request to the API, with the headers set.
  unfoldable pub api_request : LlmRequest → Bool → Result Request
  unfolding build_request post
  api_request req stream = elim (marshal (build_request codec m.model_id m.config req stream)) [
    | err e ↦ err (wrapf "marshaling anthropic request: %w" [] e)
    | ok body ↦ elim (refused "POST" (m.base_url <> "/messages")) [
      | some e ↦ err (wrapf "creating anthropic request: %w" [] e)
      | none ↦ ok (post body)
    ]
  ]

  -- What is yielded for a response.
  unfoldable pub sync_response : Response → Item
  unfolding read_body convert_sync_response
  sync_response resp = elim (read_body m.client.opts.max_body_size resp.body) [
    | err e ↦ fail (wrapf "reading anthropic response: %w" [] e)
    | ok body ↦
        if not (eqb resp.status_code 200)
        then fail (
            errorf "anthropic API error (HTTP %d): %s"
              (num resp.status_code ∷ str (text body) ∷ []))
        else elim (unmarshal body) [
          | err e ↦ fail (wrapf "unmarshaling anthropic response: %w" [] e)
          | ok r ↦ respond (convert_sync_response codec r)
        ]
  ]

  module _ {S : Type 0} (yield : Yield S Item) where
    abbrev pub yielded : W → S → Item → Option (W × S)
    yielded v s item = some (v, (yield s item).0)

    -- `generateSync`; `none` is a panic: in the client's wait, or at `resp.Body` of a nil response.
    unfoldable pub generate_sync : W → S → LlmRequest → Option (W × S)
    unfolding api_request sync_response do_request
    generate_sync w s req = elim (api_request req false) [
      | err e ↦ yielded w s (fail e)
      | ok http ↦ elim (do_request world m.client w http) [
        | none ↦ none
        | some (v, err e) ↦ yielded v s (fail (wrapf "anthropic API call failed: %w" [] e))
        | some (v, ok none) ↦ none
        | some (v, ok (some resp)) ↦ yielded v s (sync_response resp)
      ]
    ]

    -- `generateStreaming`: the client, the world and the consumer behind it, and how it ended.
    unfoldable pub generate_streaming : W → S → LlmRequest → Client × W × S × Flow Progress
    unfolding api_request do_stream consume
    generate_streaming w s req = elim (api_request req true) [
      | err e ↦ (m.client, w, (yield s (fail e)).0, left)
      | ok http ↦
          let (c, v, result) = do_stream world m.client w http in
          elim result [
            | err e ↦ (c, v, (yield s (fail (wrapf "anthropic stream failed: %w" [] e))).0, left)
            | ok resp ↦
                let (t, flow) = consume codec decoders yield s (stream_of resp.body) in
                (c, v, t, flow)
          ]
    ]

    -- `GenerateContent`
    unfoldable pub generate_content : W → S → LlmRequest → Bool → Generated W S
    generate_content w s req streaming =
        if streaming then streamed (generate_streaming w s req) else at_once (generate_sync w s req)
