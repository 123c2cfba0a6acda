-- ===== src/Provider/OpenAi/Authorization.antt =====
-- That no request of internal/runtime/providers/openai/openai.go goes to OpenAI's endpoint without a key.
use crated.Prelude.{
  Bool, true, false, String, List, [], ◌∷◌, ◌++◌, Option, none, some, Result, ok, All, All-implies,
  subst, eq_iff, ◌≡◌, ◌≢◌, ap, sym, ◌∙◌, ◌⊎◌, arith, inl, inr, Result-cases, Option-cases, pos,
  Yield,
}
use mathlib.Core.List.{append-nil}
use crated.Prelude.Text.{◌<>◌}
use crated.Dict.{lookup, insert, lookup-insert}
use crated.Json.{Codec}
use crated.Genai.{ModelConfig, LlmRequest, Item}
use crated.HttpClient.{Bytes, Request, Response}
use crated.HttpClient.Exchange.{World, do_request, do_stream}
use crated.HttpClient.Attempts.{IsLogged, do_request-Sends}
use crated.Models.{ConnectConfig}
use crated.Provider.OpenAi.Model.{
  Model, create_model, default_base_url, key_env_of, set_headers, Wire, api_request, post,
  sync_item, Generated, at_once, streamed, generate_sync, generate_streaming, generate_content,
}
use crated.Provider.OpenAi.Endpoint.{max_retries-create_model, api_request-post, post-IsReplayable}

key-create_model :
    (getenv : String → String) (id : String) (conn : ConnectConfig) (mc : ModelConfig) (m : Model)
    → create_model getenv id conn mc ≡ ok m
    → m.base_url ≡ default_base_url
    → (m.api_key ≢ "") × (m.api_key ≡ getenv (key_env_of getenv conn))
unfolding create_model
key-create_model getenv id conn mc m h base =
    ground (arith, eq_iff m.api_key "", eq_iff m.base_url default_base_url)

abbrev pub Carries : String → Request → Type 0
Carries key r = lookup "Authorization" r.headers ≡ some ("Bearer " <> key)

-- The requests from `w` to `v`, all with the key.
pub record SendsWith {W : Type 0} (sent : W → List Request) (key : String) (w v : W) : Type 0 where
  pub requests : List Request
  pub logged : sent v ≡ sent w ++ requests
  pub carry : All (Carries key) requests

-- The world behind `GenerateContent`, unless it panics.
abbrev pub reached : {W S : Type 0} → Generated W S → Option W
reached (at_once none) = none
reached (at_once (some (v, s))) = some v
reached (streamed (c, v, s, flow)) = some v

module _ {W : Type 0} (world : World W) (wire : Wire) (codec : Codec) (m : Model) where
  post-Carries : (body : Bytes) → m.api_key ≢ "" → Carries m.api_key (post world wire codec m body)
  unfolding post set_headers
  post-Carries body given = ground (
    arith,
    eq_iff m.api_key "",
    lookup-insert "Authorization" "Authorization" ("Bearer " <> m.api_key)
        (insert "Content-Type" "application/json" []),
  )

  api_request-Carries :
      (req : LlmRequest) (stream : Bool) (http : Request)
      → m.api_key ≢ ""
      → api_request world wire codec m req stream ≡ ok http
      → Carries m.api_key http
  api_request-Carries req stream http given made =
      let (body, posted) = api_request-post world wire codec m req stream http made in
      rw posted (post-Carries body given)

  module _ (sent : W → List Request) (log : IsLogged world sent) where
    quiet : (w v : W) → v ≡ w → SendsWith sent m.api_key w v
    quiet w v same = record {
      requests = [];
      logged = ap sent same ∙ sym (append-nil (sent w));
      carry = tt;
    }

    -- What `generateSync` has come through where it yields.
    sync_item-cases :
        (w v : W) (req : LlmRequest) (item : Item)
        → sync_item world wire codec m w req ≡ some (v, item)
        → (v ≡ w)
          ⊎ ((http : Request) × (result : Result (Option Response)) × (api_request world wire codec
                  m req false
                ≡ ok http)
              × (do_request world m.client w http ≡ some (v, result)))
    unfolding sync_item
    sync_item-cases w v req item h =
        elim (Result-cases (api_request world wire codec m req false)) [
          | inr (e, failed) ↦ inl (ground (arith, failed, h))
          | inl (http, made) ↦ elim (Option-cases (do_request world m.client w http)) [
            | inl panics ↦ absurd (ground (arith, made, panics, h))
            | inr ((u, result), done) ↦ inr (
              http,
              result,
              made,
              done ∙ ap (λ x. some (x, result)) (ground (arith, made, done, h)),
            )
          ]
        ]

    sync_item-SendsWith :
        (w v : W) (req : LlmRequest) (item : Item)
        → m.client.opts.max_retries ≡ pos 3
        → m.api_key ≢ ""
        → sync_item world wire codec m w req ≡ some (v, item)
        → SendsWith sent m.api_key w v
    sync_item-SendsWith w v req item retries given h = elim (sync_item-cases w v req item h) [
      | inl same ↦ quiet w v same
      | inr (http, result, made, done) ↦
          let (body, posted) = api_request-post world wire codec m req false http made in
          let (replay, _) = post-IsReplayable world wire codec m body http posted in
          let (q, like, s) =
            do_request-Sends world sent m.client w v http 2 result log retries replay done in
          record {
            requests = s.requests;
            logged = s.logged;
            carry =
                All-implies (λ r. r ≡ q) (Carries m.api_key) s.requests
                  (λ r e.
                    ap (λ x. lookup "Authorization" x.headers) e
                    ∙ ap (lookup "Authorization") like.headers
                    ∙ api_request-Carries req false http given made)
                  s.alike;
          }
    ]

    do_stream-world :
        (w : W) (http : Request)
        → (do_stream world m.client w http).1 ≡ (world.transport w (pos 0) http).0
    unfolding do_stream
    do_stream-world w http = ground arith

    module _ {S : Type 0} (yield : Yield S Item) where
      streaming-world :
          (w : W) (s : S) (req : LlmRequest) (http : Request)
          → api_request world wire codec m req true ≡ ok http
          → (generate_streaming world wire codec m yield w s req).1
            ≡ (do_stream world m.client w http).1
      unfolding generate_streaming
      streaming-world w s req http made = ground (arith, made)

      streaming-SendsWith :
          (w : W) (s : S) (req : LlmRequest)
          → m.api_key ≢ ""
          → SendsWith sent m.api_key w (generate_streaming world wire codec m yield w s req).1
      unfolding generate_streaming
      streaming-SendsWith w s req given =
          elim (Result-cases (api_request world wire codec m req true)) [
            | inr (e, failed) ↦ quiet w _ (ground (arith, failed))
            | inl (http, made) ↦ record {
              requests = http ∷ [];
              logged =
                  ap sent (streaming-world w s req http made ∙ do_stream-world w http)
                  ∙ log.at_transport w (pos 0) http;
              carry = (api_request-Carries req true http given made, tt);
            }
          ]

      sync-item :
          (w v : W) (s t : S) (req : LlmRequest)
          → generate_sync world wire codec m yield w s req ≡ some (v, t)
          → (item : Item) × (sync_item world wire codec m w req ≡ some (v, item))
      unfolding generate_sync
      sync-item w v s t req h = elim (Option-cases (sync_item world wire codec m w req)) [
        | inl panics ↦ absurd (ground (arith, panics, h))
        | inr ((u, item), done) ↦ (item, done ∙ ap (λ x. some (x, item)) (ground (arith, done, h)))
      ]

      content-SendsWith :
          (w v : W) (s : S) (req : LlmRequest) (streaming : Bool)
          → m.client.opts.max_retries ≡ pos 3
          → m.api_key ≢ ""
          → reached (generate_content world wire codec m yield w s req streaming) ≡ some v
          → SendsWith sent m.api_key w v
      unfolding generate_content
      content-SendsWith w v s req true retries given h =
          subst (SendsWith sent m.api_key w) (ground (arith, h)) (streaming-SendsWith w s req given)
      content-SendsWith w v s req false retries given h =
          elim (Option-cases (generate_sync world wire codec m yield w s req)) [
            | inl panics ↦ absurd (ground (arith, panics, h))
            | inr ((u, t), done) ↦
                let same : u ≡ v = ground (arith, done, h) in
                let (item, yielded) = sync-item w u s t req done in
                subst (SendsWith sent m.api_key w) same
                  (sync_item-SendsWith w u req item retries given yielded)
          ]

-- A model that was made with exactly OpenAI's default base URL has a key, which is not empty and is the
-- environment's; and all requests that a call of GenerateContent sends, in either form and with all
-- retries, carry it, unless the call panics.
pub generate_content-authorized :
    {W S : Type 0} (world : World W) (wire : Wire) (codec : Codec) (yield : Yield S Item)
    (sent : W → List Request) (getenv : String → String) (id : String) (conn : ConnectConfig)
    (mc : ModelConfig) (m : Model) (w v : W) (s : S) (req : LlmRequest) (streaming : Bool)
    → IsLogged world sent
    → create_model getenv id conn mc ≡ ok m
    → m.base_url ≡ default_base_url
    → reached (generate_content world wire codec m yield w s req streaming) ≡ some v
    → (m.api_key ≢ "")
      × (m.api_key ≡ getenv (key_env_of getenv conn))
      × SendsWith sent m.api_key w v
generate_content-authorized world wire codec yield sent getenv id conn mc m w v s req streaming log
      made base ran =
    let (given, known) = key-create_model getenv id conn mc m made base in
    let retries = max_retries-create_model getenv id conn mc m made in
    (
      given,
      known,
      content-SendsWith world wire codec m sent log yield w v s req streaming retries given ran,
    )
