-- ===== src/HttpClient/Attempts.antt =====
-- What `Do` of internal/httpclient/client.go sends and returns, whatever the outside world does.
use crated.Prelude.{
  ℕ, zero, suc, ◌≤◌, List, [], ◌∷◌, ◌++◌, Option, none, some, Error, Result, ok, err, All, length,
  ◌≡◌, refl, sym, ap, ◌∙◌, arith, ℤ, pos, ◌⊎◌, inl, inr, Bool-cases, Result-cases,
}
use mathlib.Core.List.{append_assoc, append-nil}
use crated.HttpClient.{Bytes, Reader, Request, Response, retryable, Client}
use crated.HttpClient.Exchange.{
  World, prepare, reset, drained, attempts, do_request, buffer, status_error,
}

-- A world that keeps a log of the requests that its transport was given.
pub record IsLogged {W : Type 0} (world : World W) (sent : W → List Request) : Type 0 where
  pub at_transport :
      (w : W) (t : ℤ) (r : Request) → sent (world.transport w t r).0 ≡ sent w ++ r ∷ []
  pub at_wait : (w : W) (d : ℕ) → sent (world.wait w d).0 ≡ sent w
  pub at_random : (w : W) (n : ℕ) → sent (world.random w n).0 ≡ sent w

-- The requests from `w` to `v` are at most `k`, each of them `q`.
pub record Sends {W : Type 0} (sent : W → List Request) (q : Request) (k : ℕ) (w v : W)
    : Type 0 where
  pub requests : List Request
  pub logged : sent v ≡ sent w ++ requests
  pub bounded : length requests ≤ k
  pub alike : All (λ r. r ≡ q) requests

module _ {W : Type 0} (world : World W) (sent : W → List Request) (log : IsLogged world sent) where
  -- The request as the loop holds it at the head of a round: `q` at first, and then something that
  -- resetting the body makes `q` again.
  abbrev IsReady : Request → ℕ → Request → Type 0
  IsReady q zero req = req ≡ q
  IsReady q (suc n) req = reset req ≡ ok q

  record Prepared (q : Request) (w : W) (result : W × Result Request) : Type 0 where
    unsent : sent result.0 ≡ sent w
    same : (req : Request) → result.1 ≡ ok req → req ≡ q

  prepare-Prepared :
      (q : Request) (w : W) (attempt : ℕ) (req : Request) (result : W × Result Request)
      → IsReady q attempt req
      → prepare world w attempt req ≡ some result
      → Prepared q w result
  prepare-Prepared q w zero req result h e = record {
    unsent = ground arith;
    same = λ r p. ground arith;
  }
  prepare-Prepared q w (suc n) req result h e = record {
    unsent = grind (arith, log.at_random, log.at_wait);
    same = λ r p. ground arith;
  }

  Sends-none : (q : Request) (k : ℕ) (w v : W) → sent v ≡ sent w → Sends sent q k w v
  Sends-none q k w v e = record {
    requests = [];
    logged = e ∙ sym (append-nil (sent w));
    bounded = omega arith;
    alike = tt;
  }

  Sends-cons :
      (q r : Request) (k : ℕ) (w u v : W)
      → r ≡ q
      → sent u ≡ sent w ++ r ∷ []
      → Sends sent q k u v
      → Sends sent q (suc k) w v
  Sends-cons q r k w u v same e s = record {
    requests = r ∷ s.requests;
    logged = s.logged ∙ ap (λ l. l ++ s.requests) e ∙ append_assoc (sent w) (r ∷ []) s.requests;
    bounded = omega (arith, s.bounded);
    alike = (same, s.alike);
  }

  Prepare-cases :
      (p : Option (W × Result Request))
      → (p ≡ none)
        ⊎ ((w : W) × (e : Error) × (p ≡ some (w, err e)))
        ⊎ ((w : W) × (r : Request) × (p ≡ some (w, ok r)))
  Prepare-cases none = inl refl
  Prepare-cases (some (w, err e)) = inr (inl (w, e, refl))
  Prepare-cases (some (w, ok r)) = inr (inr (w, r, refl))

  module _ (c : Client) (q : Request) (again : (n : ℕ) → IsReady q (suc n) (drained q)) where
    attempts-Sends :
        (k attempt : ℕ) (w : W) (req : Request) (last_err : Option Error)
        (last_resp : Option Response) (v : W) (result : Result (Option Response))
        → IsReady q attempt req
        → attempts world c k attempt w req last_err last_resp ≡ some (v, result)
        → Sends sent q k w v
    unfolding attempts
    attempts-Sends zero attempt w req last_err last_resp v result ready h =
        Sends-none q 0 w v (ground arith)
    attempts-Sends (suc k) attempt w req last_err last_resp v result ready h =
        elim (Prepare-cases (prepare world w attempt req)) [
          | inl panics ↦ absurd (ground arith)
          | inr (inl (w₁, e, failed)) ↦
              Sends-none q (suc k) w v
                (ground (arith, (prepare-Prepared q w attempt req (w₁, err e) ready failed).unsent))
          | inr (inr (w₁, r, prepared)) ↦
              let p = prepare-Prepared q w attempt req (w₁, ok r) ready prepared in
              let same : r ≡ q = p.same r refl in
              let (w₂, outcome) = world.transport w₁ c.http_timeout r in
              let ready' : reset (drained r) ≡ ok q = rw same (again attempt) in
              let cons =
                Sends-cons q r k w w₂ v same
                  (log.at_transport w₁ c.http_timeout r ∙ ap (λ l. l ++ r ∷ []) p.unsent) in
              elim (Result-cases outcome) [
                | inl (resp, got) ↦ elim (Bool-cases (retryable resp.status_code)) [
                  | inl again_later ↦ cons (
                      attempts-Sends k (suc attempt) w₂ (drained r)
                        (some (status_error world "HTTP %d: %s" resp)) (some resp) v result ready'
                        (ground arith))
                  | inr final ↦ cons (Sends-none q k w₂ v (ground arith))
                ]
                | inr (e, failed) ↦ cons (
                    attempts-Sends k (suc attempt) w₂ (drained r) (some e) last_resp v result ready'
                      (ground arith))
              ]
        ]

-- A request whose body can be sent again: `Do` buffers it, or `GetBody` gives a copy of it.
abbrev pub IsReplayable : Request → Type 0
IsReplayable req =
    (req.get_body ≡ none)
    ⊎ ((body : Reader) × (req.body ≡ some body) × (req.get_body ≡ some (ok body)))

abbrev pub body_bytes : Option Reader → Option Bytes
body_bytes none = none
body_bytes (some r) = some r.content

-- The same request line, headers and body.
pub record SameRequest (q req : Request) : Type 0 where
  pub method : q.method ≡ req.method
  pub url : q.url ≡ req.url
  pub headers : q.headers ≡ req.headers
  pub body : body_bytes q.body ≡ body_bytes req.body

buffer-SameRequest : (max : ℤ) (req q : Request) → buffer max req ≡ ok q → SameRequest q req
unfolding buffer
buffer-SameRequest (pos zero) req q e = ground arith
buffer-SameRequest _ req q e = ground arith

pub buffer-reset :
    (n : ℕ) (req q : Request)
    → IsReplayable req
    → buffer (pos (suc n)) req ≡ ok q
    → reset (drained q) ≡ ok q
unfolding buffer
buffer-reset n req q h e = ground arith

-- With retries on, `Do` sends at most one request more than `MaxRetries`, and each of them whole:
-- with the request's line and headers, and all of its body, however often it was sent before.
pub do_request-Sends :
    {W : Type 0} (world : World W) (sent : W → List Request) (c : Client) (w v : W) (req : Request)
    (n : ℕ) (result : Result (Option Response))
    → IsLogged world sent
    → c.opts.max_retries ≡ pos (suc n)
    → IsReplayable req
    → do_request world c w req ≡ some (v, result)
    → (q : Request) × SameRequest q req × Sends sent q (suc (suc n)) w v
unfolding do_request
do_request-Sends world sent c w v req n result log m replay h =
    elim (Result-cases (buffer (pos (suc n)) req)) [
      | inl (q, buffered) ↦ (
        q,
        buffer-SameRequest (pos (suc n)) req q buffered,
        attempts-Sends world sent log c q (λ _. buffer-reset n req q replay buffered) (suc (suc n))
            0 w q none none v result refl (ground arith),
      )
      | inr (e, failed) ↦ (
        req,
        record { method = refl; url = refl; headers = refl; body = refl },
        Sends-none world sent log req (suc (suc n)) w v (ground arith),
      )
    ]
