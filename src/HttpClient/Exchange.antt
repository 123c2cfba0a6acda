-- ===== src/HttpClient/Exchange.antt =====
-- `Do` and `DoStream` of internal/httpclient/client.go, over an outside world `W`: the transport,
-- the wait for the timer or the context, and the random numbers.
use crated.Prelude.{
  ℕ, zero, suc, true, false, not, String, [], ◌∷◌, Option, none, some, is_some, Error, errorf,
  wrapf, num, str, Result, ok, err, eqb, if◌then◌else◌, ℤ, pos, negsuc,
}
use crated.HttpClient.{Bytes, Reader, Request, Response, retryable, Client}
use crated.HttpClient.Body.{read_limited}
use crated.HttpClient.Backoff.{backoff, jitter_range}

-- What the client calls. `transport` is http.Client.Do, for a client with this timeout; `wait` the
-- select on the timer and the context (`some` is the context's error); `random` is rand.Int64N;
-- `text` is string(…) of bytes.
pub record World (W : Type 0) : Type 0 where
  pub transport : W → ℤ → Request → W × Result Response
  pub wait : W → ℕ → W × Option Error
  pub random : W → ℕ → W × ℕ
  pub to_int64 : ℕ → ℤ
  pub text : Bytes → String

abbrev pub empty_reader : Reader
empty_reader = record { content = []; failure = none }

abbrev emptied : Option Reader → Option Reader
emptied none = none
emptied (some _) = some empty_reader

-- The request once the transport has read its body.
abbrev pub drained : Request → Request
drained req = record req { body = emptied req.body }

-- The request behind the buffering at the start of `Do`: a body that cannot be had again is read
-- and kept for `GetBody`.
abbrev pub buffered : Reader → Request → Result Request
buffered body req = elim body.failure [
  | some e ↦ err (wrapf "buffering request body for retries: %w" [] e)
  | none ↦
      let copy = record empty_reader { content = body.content } in
      ok (record req { body = some copy; get_body = some (ok copy) })
]

unfoldable pub buffer : ℤ → Request → Result Request
buffer (pos (suc n)) req = elim req.body [
  | none ↦ ok req
  | some body ↦ if is_some req.get_body then ok req else buffered body req
]
buffer _ req = ok req

-- `if req.GetBody != nil { … req.Body = body }`
abbrev pub reset : Request → Result Request
reset req = elim req.get_body [
  | none ↦ ok req
  | some (ok body) ↦ ok (record req { body = some body })
  | some (err e) ↦ err (wrapf "resetting request body for retry: %w" [] e)
]

-- The rounds that `attempt <= c.opts.MaxRetries` leaves from attempt 0 on.
abbrev pub rounds : ℤ → ℕ
rounds (pos n) = suc n
rounds (negsuc n) = 0

module _ {W : Type 0} (world : World W) where
  open world use {transport, wait, random, to_int64, text}

  -- The head of a round with `attempt > 0`: back off, wait, and reset the body. The outer `none` is
  -- a panic of `backoff`.
  abbrev before_retry : W → ℕ → Request → Option (W × Result Request)
  before_retry w attempt req = elim (jitter_range to_int64 attempt) [
    | none ↦ none
    | some range ↦
        let (w₁, drawn) = random w range in
        elim (backoff to_int64 attempt drawn) [
          | none ↦ none
          | some delay ↦
              let (w₂, canceled) = wait w₁ delay in
              elim canceled [ some e ↦ some (w₂, err e) | none ↦ some (w₂, reset req) ]
        ]
  ]

  abbrev pub prepare : W → ℕ → Request → Option (W × Result Request)
  prepare w zero req = some (w, ok req)
  prepare w (suc n) req = before_retry w (suc n) req

  -- fmt.Errorf("HTTP %d: %s", resp.StatusCode, string(body)), on at most 1024 bytes of the body.
  abbrev pub status_error : String → Response → Error
  status_error f resp =
      errorf f (num resp.status_code ∷ str (text (read_limited 1024 resp.body).0) ∷ [])

  -- What is returned behind the loop.
  abbrev pub give_up : Client → Option Error → Option Response → Result (Option Response)
  give_up c (some last) resp =
      err (wrapf "request failed after %d attempts: %w" (num (rounds c.opts.max_retries) ∷ []) last)
  give_up c none resp = ok resp

  -- The loop, with the rounds left, the attempt's number, and the last error and response.
  unfoldable pub attempts :
      Client
      → ℕ
      → ℕ
      → W
      → Request
      → Option Error
      → Option Response
      → Option (W × Result (Option Response))
  attempts c zero attempt w req last_err last_resp = some (w, give_up c last_err last_resp)
  attempts c (suc k) attempt w req last_err last_resp = elim (prepare w attempt req) [
    | none ↦ none
    | some (w₁, err e) ↦ some (w₁, err e)
    | some (w₁, ok req') ↦
        let (w₂, result) = transport w₁ c.http_timeout req' in
        elim result [
          | err e ↦ attempts c k (suc attempt) w₂ (drained req') (some e) last_resp
          | ok resp ↦ elim (retryable resp.status_code) [
            | false ↦ some (w₂, ok (some resp))
            | true ↦
                attempts c k (suc attempt) w₂ (drained req')
                  (some (status_error "HTTP %d: %s" resp)) (some resp)
          ]
        ]
  ]

  -- `Do`; the outer `none` is a panic, the inner a nil response with a nil error.
  unfoldable pub do_request : Client → W → Request → Option (W × Result (Option Response))
  unfolding attempts
  do_request c w req = elim (buffer c.opts.max_retries req) [
    | err e ↦ some (w, err e)
    | ok req' ↦ attempts c (rounds c.opts.max_retries) 0 w req' none none
  ]

  -- `DoStream`: the client for streams, with no timeout, is made at the first call.
  unfoldable pub do_stream : Client → W → Request → Client × W × Result Response
  do_stream c w req =
      let c' = record c { stream_timeout = some (pos 0) } in
      let (w₁, result) = transport w (pos 0) req in
      elim result [
        | err e ↦ (c', w₁, err e)
        | ok resp ↦
            if not (eqb resp.status_code 200)
            then (c', w₁, err (status_error "stream request failed (HTTP %d): %s" resp))
            else (c', w₁, ok resp)
      ]
