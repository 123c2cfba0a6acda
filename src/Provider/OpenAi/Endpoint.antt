-- ===== src/Provider/OpenAi/Endpoint.antt =====
-- What the provider of internal/runtime/providers/openai/openai.go sends to the endpoint, and what
-- it makes of the answers.
use crated.Prelude.{
  Bool, false, String, List, [], ◌∷◌, ◌++◌, Option, none, some, Error, wrapf, num, Result, ok, err,
  if◌then◌else◌, eq_iff, pos, length, ◌≡◌, ◌≢◌, refl, ap, ◌∙◌, arith, inl, inr, Result-cases,
  Bool-cases,
}
use crated.Json.{Codec}
use crated.Genai.{ModelConfig, LlmRequest, Item, fail}
use crated.HttpClient.{Bytes, Reader, Request, Response, Client, Options, retryable}
use crated.HttpClient.Exchange.{World, status_error, do_request}
use crated.HttpClient.Attempts.{IsReplayable}
use crated.HttpClient.Script.{IsScripted, first_final, do_request_scripted}
use crated.Models.{ConnectConfig}
use crated.Provider.OpenAi.Request.{build_request}
use crated.Provider.OpenAi.Model.{
  Model, create_model, default_base_url, base_of, set_headers, Wire, api_request, post,
  sync_response, sync_item,
}

-- A key is wanted for OpenAI's own endpoint only: any other gets its model, and the configured
-- endpoint, whatever the environment holds.
pub create_model_elsewhere :
    (getenv : String → String) (id : String) (conn : ConnectConfig) (mc : ModelConfig)
    → base_of getenv conn ≢ default_base_url
    → (m : Model) × (create_model getenv id conn mc ≡ ok m) × (m.base_url ≡ base_of getenv conn)
unfolding create_model
create_model_elsewhere getenv id conn mc h = elim (Result-cases (create_model getenv id conn mc)) [
  | inl (m, made) ↦ (m, made, ground arith)
  | inr (e, failed) ↦ absurd (ground (arith, eq_iff (base_of getenv conn) default_base_url))
]

pub max_retries-create_model :
    (getenv : String → String) (id : String) (conn : ConnectConfig) (mc : ModelConfig) (m : Model)
    → create_model getenv id conn mc ≡ ok m
    → m.client.opts.max_retries ≡ pos 3
unfolding create_model crated.HttpClient.new crated.HttpClient.with_defaults
max_retries-create_model getenv id conn mc m h = ground arith

module _ {W : Type 0} (world : World W) (wire : Wire) (codec : Codec) (m : Model) where
  -- What is yielded if the network answers like this: it is asked again after a failure or a status
  -- that is retryable, `last` being the last failure so far.
  abbrev pub first_item : List (Result Response) → Error → Item
  unfolding sync_response
  first_item [] last = fail (
      wrapf "openai API call failed: %w" []
        (wrapf "request failed after %d attempts: %w" (num 4 ∷ []) last))
  first_item (err e ∷ xs) last = first_item xs e
  first_item (ok resp ∷ xs) last =
      if retryable resp.status_code
      then first_item xs (status_error world "HTTP %d: %s" resp)
      else sync_response world wire codec m resp

  Answered : Result (Option Response) → Item → Type 0
  unfolding sync_response
  Answered (err e) item = item ≡ fail (wrapf "openai API call failed: %w" [] e)
  Answered (ok none) item = ⊥
  Answered (ok (some resp)) item = item ≡ sync_response world wire codec m resp

  first_item-Answered :
      (xs : List (Result Response)) (last : Error)
      → Answered (first_final world 4 xs last) (first_item xs last)
  unfolding Answered
  first_item-Answered [] last = refl
  first_item-Answered (err e ∷ xs) last = first_item-Answered xs e
  first_item-Answered (ok resp ∷ xs) last = elim (Bool-cases (retryable resp.status_code)) [
    | inl again ↦ rw again (first_item-Answered xs (status_error world "HTTP %d: %s" resp))
    | inr final ↦ rw final refl
  ]

  pub api_request-post :
      (req : LlmRequest) (stream : Bool) (http : Request)
      → api_request world wire codec m req stream ≡ ok http
      → (body : Bytes) × (http ≡ post world wire codec m body)
  unfolding api_request
  api_request-post req stream http h =
      elim (Result-cases (wire.marshal (build_request codec m.model_id m.config req stream))) [
        | inl (body, made) ↦ (body, ground arith)
        | inr (e, failed) ↦ absurd (ground arith)
      ]

  post-fields :
      (body : Bytes)
      → ((post world wire codec m body).body ≡ some (record { content = body; failure = none }))
        × ((post world wire codec m body).get_body
            ≡ some (ok (record { content = body; failure = none })))
  unfolding post set_headers
  post-fields body = (refl, refl)

  pub post-IsReplayable :
      (body : Bytes) (http : Request)
      → http ≡ post world wire codec m body
      → IsReplayable http × ((r : Reader) → http.body ≡ some r → r.failure ≡ none)
  post-IsReplayable body http h =
      let (same, again) = post-fields body in
      let reader : Reader = record { content = body; failure = none } in
      (
        inr (reader, ap (λ q. q.body) h ∙ same, ap (λ q. q.get_body) h ∙ again),
        λ r e. ground (arith, ap (λ q. q.body) h),
      )

  from_client :
      (outcome : Result (Option Response)) (item : Item) (v w : W) (req : LlmRequest)
      (http : Request)
      → api_request world wire codec m req false ≡ ok http
      → do_request world m.client w http ≡ some (v, outcome)
      → Answered outcome item
      → sync_item world wire codec m w req ≡ some (v, item)
  unfolding sync_item Answered
  from_client (err e) item v w req http made sent a = ground arith
  from_client (ok none) item v w req http made sent a = absurd a
  from_client (ok (some resp)) item v w req http made sent a = ground arith

  -- The request of a model with the default retries, over a network whose context is not canceled:
  -- exactly one item is always yielded. It is what the first of the network's four first answers
  -- gives that is a response with a status that is not retryable, and otherwise the last failure.
  pub sync_item_scripted :
      (script : W → List (Result Response)) (w : W) (req : LlmRequest) (http : Request)
      (xs rest : List (Result Response)) (last : Error)
      → IsScripted world script
      → m.client.opts.max_retries ≡ pos 3
      → api_request world wire codec m req false ≡ ok http
      → script w ≡ xs ++ rest
      → length xs ≡ 4
      → (v : W) × (sync_item world wire codec m w req ≡ some (v, first_item xs last))
  sync_item_scripted script w req http xs rest last plays retries made s l =
      let (body, posted) = api_request-post req false http made in
      let (replay, readable) = post-IsReplayable body http posted in
      let (v, sent) =
        do_request_scripted world script m.client w http 2 xs rest last plays retries (omega arith)
          replay readable s l in
      (
        v,
        from_client (first_final world 4 xs last) (first_item xs last) v w req http made sent
            (first_item-Answered xs last),
      )
