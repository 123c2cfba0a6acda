-- ===== src/Tests/Endpoint.antt =====
-- The endpoint of the provider of OpenAI, over a network that answers by a script.
use crated.Prelude.{
  ℕ, zero, suc, ◌+◌, ◌-◌, ◌*◌, ◌/◌, ◌^◌, ◌≤◌, ◌<◌, Bool, true, false, String, List, [], ◌∷◌, ◌++◌,
  Option, none, some, Error, foreign, errorf, wrapf, num, str, Result, ok, err, ◌≡◌, refl, sym, ap,
  ◌∙◌, arith, ℤ, pos, negsuc, length, ◌⊎◌, inl, inr, ◌↔◌, All, eqb, ◌≢◌, ◌==◌, if◌then◌else◌,
  eq_iff,
}
use crated.Json.{Codec}
use crated.Genai.{LlmRequest, ModelConfig}
use crated.HttpClient.{Request, new}
use crated.Models.{ConnectConfig}
use crated.Provider.OpenAi.{ChatResponse}
use crated.Provider.OpenAi.Model.{
  Model, Wire, create_model, key_env_of, base_of, set_headers, sync_item, default_base_url,
  api_request,
}
use crated.HttpClient.Exchange.{do_stream}
use crated.Provider.OpenAi.Model.{generate_content, generate_streaming}
use crated.Provider.OpenAi.Authorization.{reached, SendsWith, generate_content-authorized}
use crated.Provider.OpenAi.Endpoint.{create_model_elsewhere, first_item, sync_item_scripted}
use crated.Dict.{lookup}
use crated.Prelude.Text.{◌<>◌}
use crated.Tests.Network.{Net, lost, net, busy_first, net-IsScripted, net-IsLogged, client}

abbrev conn : ConnectConfig
conn = record { api_base = ""; auth_env_var = ""; host_env_var = "" }

abbrev local : ConnectConfig
local = record { api_base = ""; auth_env_var = ""; host_env_var = "OLLAMA_HOST" }

abbrev config : ModelConfig
config = record {
  name = "main";
  model = "openai/gpt";
  temperature = none;
  max_tokens = none;
  top_p = none;
}

abbrev model : Model
model = record {
  model_id = "gpt";
  api_key = "sk-1";
  base_url = default_base_url;
  config = config;
  client = record client { opts = record client.opts { logger = some "openai/gpt" } };
}

abbrev env : String → String
env name = "sk-1"

model_made : create_model env "gpt" conn config ≡ ok model
unfolding create_model base_of new
model_made = refl

abbrev local_env : String → String
local_env name = if name == "OLLAMA_HOST" then "http://localhost:11434/" else ""

local_base : base_of local_env local ≡ "http://localhost:11434/v1"
unfolding base_of crated.Provider.OpenAi.Model.host_of crated.Prelude.Text.trim_right
local_base = refl

elsewhere : base_of local_env local ≢ default_base_url
elsewhere = rw local_base (ground (arith, eq_iff "http://localhost:11434/v1" default_base_url))

create_model_elsewhere_example :
    (m : Model) × (create_model local_env "llama" local config ≡ ok m)
    × (m.base_url ≡ base_of local_env local)
create_model_elsewhere_example = create_model_elsewhere local_env "llama" local config elsewhere

abbrev wire : Wire
wire = record {
  marshal = λ r. ok (1 ∷ []);
  unmarshal = λ b. ok (record { choices = []; usage = none });
  unmarshal_chunk = λ s. err lost;
  refused = λ m u. none;
  stream_of = λ r. record { text = ""; failure = none };
}

abbrev codec : Codec
codec = record { marshal = λ j. none; unmarshal = λ s. none }

abbrev request : LlmRequest
request = record { contents = []; config = none }

abbrev http : Request
http = record {
  method = "POST";
  url = "https://api.openai.com/v1/chat/completions";
  headers = ("Content-Type", "application/json") ∷ ("Authorization", "Bearer sk-1") ∷ [];
  body = some (record { content = 1 ∷ []; failure = none });
  get_body = some (ok (record { content = 1 ∷ []; failure = none }));
}

http_made : api_request net wire codec model request false ≡ ok http
unfolding api_request crated.Provider.OpenAi.Model.post set_headers crated.Dict.insert
http_made = refl

sync_item_scripted_example :
    (v : Net) × (sync_item net wire codec model busy_first request
      ≡ some (v, first_item net wire codec model busy_first.answers lost))
sync_item_scripted_example =
    sync_item_scripted net wire codec model (λ w. w.answers) busy_first request http
      busy_first.answers [] lost net-IsScripted refl http_made refl refl

abbrev behind : Net
behind = (net.transport busy_first (pos 0) http).0

streamed_run :
    reached (generate_content net wire codec model (λ n x. (suc n, true)) busy_first 0 request true)
    ≡ some behind
unfolding generate_content generate_streaming do_stream api_request
    crated.Provider.OpenAi.Model.post set_headers crated.Dict.insert
streamed_run = refl

generate_content-authorized_example :
    (model.api_key ≢ "")
    × (model.api_key ≡ env (key_env_of env conn))
    × SendsWith (λ w. w.log) model.api_key busy_first behind
generate_content-authorized_example =
    generate_content-authorized net wire codec (λ n x. (suc n, true)) (λ w. w.log) env "gpt" conn
      config model busy_first behind 0 request true net-IsLogged model_made refl streamed_run
