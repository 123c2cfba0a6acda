-- ===== src/HttpClient/Script.antt =====
-- What `Do` of internal/httpclient/client.go returns for given answers of the network.
use crated.Prelude.{
  ℕ, zero, suc, ◌+◌, ◌≤◌, ◌<◌, ◌/◌, false, List, [], ◌∷◌, ◌++◌, Option, none, some, Error, wrapf,
  num, Result, ok, err, length, ◌≡◌, refl, ◌∙◌, arith, ℤ, pos, negsuc, ◌⊎◌, inl, inr, if◌then◌else◌,
  Bool-cases, Result-cases, Option-cases,
}
use crated.HttpClient.{Reader, Request, Response, retryable, Client, Options, new, retries}
use crated.HttpClient.Backoff.{nominal, backoff_bounds, nominal-pos}
use crated.HttpClient.Exchange.{
  World, prepare, reset, drained, attempts, do_request, buffer, rounds, status_error,
}
use crated.HttpClient.Attempts.{IsReplayable, buffer-reset}

-- A response with a status that is not retryable, or an error; never a nil response without one.
abbrev pub IsFinal : Result (Option Response) → Type 0
IsFinal (ok none) = ⊥
IsFinal (ok (some resp)) = retryable resp.status_code ≡ false
IsFinal (err e) = Unit

-- A round is still to come, or one has failed.
abbrev HasRound : ℕ → Option Error → Type 0
HasRound zero none = ⊥
HasRound _ _ = Unit

module _ {W : Type 0} (world : World W) (c : Client) where
  attempts-IsFinal :
      (k attempt : ℕ) (w : W) (req : Request) (last_err : Option Error)
      (last_resp : Option Response) {v : W} (result : Result (Option Response))
      → HasRound k last_err
      → attempts world c k attempt w req last_err last_resp ≡ some (v, result)
      → IsFinal result
  unfolding attempts
  attempts-IsFinal zero attempt w req none last_resp result round h = absurd round
  attempts-IsFinal zero attempt w req (some e) last_resp result round h = ground arith
  attempts-IsFinal (suc k) attempt w req last_err last_resp result round h =
      grind (arith, attempts-IsFinal k)

rounds-new : (opts : Options) → (n : ℕ) × (rounds (new opts).opts.max_retries ≡ suc n)
unfolding new
rounds-new opts = elim opts.max_retries as (λ m. (n : ℕ) × (rounds (retries m) ≡ suc n)) [
  | pos zero ↦ (3, refl)
  | pos (suc n) ↦ (suc n, refl)
  | negsuc n ↦ (0, refl)
]

-- `Do` of a client that `New` made returns, if it returns, an error, or a response whose status is
-- not retryable: not the nil response that its last line could return with no error.
pub do_request-IsFinal :
    {W : Type 0} (world : World W) (opts : Options) (w v : W) (req : Request)
    (result : Result (Option Response))
    → do_request world (new opts) w req ≡ some (v, result)
    → IsFinal result
unfolding do_request
do_request-IsFinal world opts w v req result h =
    let (n, e) = rounds-new opts in
    elim (Result-cases (buffer (new opts).opts.max_retries req)) [
      | inl (q, buffered) ↦
          attempts-IsFinal world (new opts) (suc n) 0 w q none none {v = v} result tt (ground arith)
      | inr (e', failed) ↦ ground arith
    ]

-- A world whose network answers by a list, and whose context is never canceled.
pub record IsScripted {W : Type 0} (world : World W) (script : W → List (Result Response))
    : Type 0 where
  pub answers :
      (w : W) (t : ℤ) (r : Request) (x : Result Response) (xs : List (Result Response))
      → script w ≡ x ∷ xs
      → ((world.transport w t r).1 ≡ x) × (script (world.transport w t r).0 ≡ xs)
  pub waits : (w : W) (d : ℕ) → (script (world.wait w d).0 ≡ script w) × ((world.wait w d).1 ≡ none)
  pub draws :
      (w : W) (n : ℕ)
      → (script (world.random w n).0 ≡ script w) × (0 < n → (world.random w n).1 < n)

module _ {W : Type 0} (world : World W) (total : ℕ) where
  -- The first of the answers that is a response with another status, or the last failure.
  abbrev pub first_final : List (Result Response) → Error → Result (Option Response)
  first_final [] last = err (wrapf "request failed after %d attempts: %w" (num total ∷ []) last)
  first_final (err e ∷ xs) last = first_final xs e
  first_final (ok resp ∷ xs) last =
      if retryable resp.status_code
      then first_final xs (status_error world "HTTP %d: %s" resp)
      else ok (some resp)

module _ {W : Type 0} (world : World W) (script : W → List (Result Response))
    (plays : IsScripted world script) where
  abbrev ReadyFor : Request → ℕ → Request → Type 0
  ReadyFor q zero req = req ≡ q
  ReadyFor q (suc n) req = reset req ≡ ok q

  prepare_scripted :
      (q : Request) (w : W) (attempt : ℕ) (req : Request)
      → attempt ≤ 35
      → ReadyFor q attempt req
      → (u : W) × (prepare world w attempt req ≡ some (u, ok q)) × (script u ≡ script w)
  prepare_scripted q w zero req a h = (w, ground arith, refl)
  prepare_scripted q w (suc n) req a h =
      let range = nominal (suc n) / 2 in
      let (w₁, drawn) = world.random w range in
      let (kept, below) = plays.draws w range in
      let (delay, ranged, delayed, _, _) =
        backoff_bounds world.to_int64 (suc n) drawn a (below (nominal-pos (suc n))) in
      let (same, timer) = plays.waits w₁ delay in
      ((world.wait w₁ delay).0, ground arith, same ∙ kept)

  module _ (c : Client) (q : Request) (again : reset (drained q) ≡ ok q) where
    attempts_scripted :
        (k attempt : ℕ) (w : W) (req : Request) (xs rest : List (Result Response))
        (last_err : Option Error) (last : Error) (last_resp : Option Response)
        → attempt + k ≤ 36
        → ReadyFor q attempt req
        → script w ≡ xs ++ rest
        → length xs ≡ k
        → (last_err ≡ some last) ⊎ (0 < k)
        → (v : W) × (attempts world c k attempt w req last_err last_resp
            ≡ some (v, first_final world (rounds c.opts.max_retries) xs last))
    unfolding attempts
    attempts_scripted zero attempt w req [] rest last_err last last_resp a ready s l known =
        (w, ground arith)
    attempts_scripted zero attempt w req (x ∷ xs) rest last_err last last_resp a ready s l known =
        absurd (omega arith)
    attempts_scripted (suc k) attempt w req [] rest last_err last last_resp a ready s l known =
        absurd (omega arith)
    attempts_scripted (suc k) attempt w req (err e ∷ xs) rest last_err last last_resp a ready s l
          known =
        let (u, prepared, kept) = prepare_scripted q w attempt req (omega arith) ready in
        let (answer, later) = plays.answers u c.http_timeout q (err e) (xs ++ rest) (kept ∙ s) in
        let (v, ih) =
          attempts_scripted k (suc attempt) (world.transport u c.http_timeout q).0 (drained q) xs
            rest (some e) e last_resp (omega arith) again later (omega arith) (inl refl) in
        (v, ground arith)
    attempts_scripted (suc k) attempt w req (ok resp ∷ xs) rest last_err last last_resp a ready s l
          known =
        let (u, prepared, kept) = prepare_scripted q w attempt req (omega arith) ready in
        let (answer, later) = plays.answers u c.http_timeout q (ok resp) (xs ++ rest) (kept ∙ s) in
        let e = status_error world "HTTP %d: %s" resp in
        let (v, ih) =
          attempts_scripted k (suc attempt) (world.transport u c.http_timeout q).0 (drained q) xs
            rest (some e) e (some resp) (omega arith) again later (omega arith) (inl refl) in
        elim (Bool-cases (retryable resp.status_code)) [
          | inl later_again ↦ (v, ground arith)
          | inr final ↦ ((world.transport u c.http_timeout q).0, ground arith)
        ]

buffer_replayable :
    (n : ℕ) (req : Request)
    → IsReplayable req
    → ((body : Reader) → req.body ≡ some body → body.failure ≡ none)
    → (q : Request) × (buffer (pos (suc n)) req ≡ ok q)
unfolding buffer
buffer_replayable n req h readable = elim (Result-cases (buffer (pos (suc n)) req)) [
  | inl (q, e) ↦ (q, e)
  | inr (e, failed) ↦ elim (Option-cases req.body) [
    | inl missing ↦ (req, ground arith)
    | inr (body, given) ↦ absurd (ground (arith, readable body given))
  ]
]

-- With between one and 35 retries, a request whose body can be read and sent again, and a context
-- that is not canceled, `Do` always returns: the first answer of the network that is a response with a
-- status that is not retryable, if it is among the first `MaxRetries` + 1, and otherwise an error
-- that wraps the last of their failures.
pub do_request_scripted :
    {W : Type 0} (world : World W) (script : W → List (Result Response)) (c : Client) (w : W)
    (req : Request) (n : ℕ) (xs rest : List (Result Response)) (last : Error)
    → IsScripted world script
    → c.opts.max_retries ≡ pos (suc n)
    → suc n ≤ 35
    → IsReplayable req
    → ((body : Reader) → req.body ≡ some body → body.failure ≡ none)
    → script w ≡ xs ++ rest
    → length xs ≡ suc (suc n)
    → (v : W) × (do_request world c w req ≡ some (v, first_final world (suc (suc n)) xs last))
unfolding do_request
do_request_scripted world script c w req n xs rest last plays m few replay readable s l =
    let (q, buffered) = buffer_replayable n req replay readable in
    let (v, e) =
      attempts_scripted world script plays c q (buffer-reset n req q replay buffered) (suc (suc n))
        0 w q xs rest none last none (omega arith) refl s l (inr (omega arith)) in
    (v, ground arith)
