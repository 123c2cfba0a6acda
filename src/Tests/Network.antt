-- ===== src/Tests/Network.antt =====
-- A network that answers by a script, for internal/httpclient/client.go.
use crated.Prelude.{
  ℕ, ◌-◌, ◌*◌, ◌/◌, ◌^◌, ◌≤◌, ◌<◌, List, [], ◌∷◌, ◌++◌, none, some, Error, foreign, Result, ok, err,
  ◌≡◌, refl, arith, pos, negsuc, length, inl, ◌↔◌,
}
use crated.HttpClient.{Bytes, Reader, Request, Response, Client, Options, new}
use crated.HttpClient.Body.{read_body, read_body_iff}
use crated.HttpClient.Backoff.{
  backoff, jitter_range, nominal, raw_delay, backoff_bounds, backoff_panics,
}
use crated.HttpClient.Exchange.{World, do_request}
use crated.HttpClient.Attempts.{IsLogged, Sends, SameRequest, do_request-Sends}
use crated.HttpClient.Script.{IsScripted, first_final, do_request_scripted}

-- The answers that are left, and the requests so far.
pub record Net : Type 0 where
  pub answers : List (Result Response)
  pub log : List Request

abbrev pub lost : Error
lost = foreign "connection reset"

abbrev answered : List (Result Response) → List Request → Net × Result Response
answered [] log = (record { answers = []; log = log }, err lost)
answered (x ∷ xs) log = (record { answers = xs; log = log }, x)

abbrev pub net : World Net
net = record {
  transport = λ w t r. answered w.answers (w.log ++ r ∷ []);
  wait = λ w d. (w, none);
  random = λ w n. (w, n - 1);
  to_int64 = λ n. negsuc 0;
  text = λ b. "body";
}

pub net-IsLogged : IsLogged net (λ w. w.log)
net-IsLogged = record {
  at_transport = λ w t r. logged w.answers (w.log ++ r ∷ []);
  at_wait = λ w d. refl;
  at_random = λ w n. refl;
}
  where
    logged : (xs : List (Result Response)) (log : List Request) → (answered xs log).0.log ≡ log
    logged [] log = refl
    logged (x ∷ xs) log = refl

pub net-IsScripted : IsScripted net (λ w. w.answers)
net-IsScripted = record {
  answers = λ w t r x xs h. ground arith;
  waits = λ w d. (refl, refl);
  draws = λ w n. (refl, λ h. omega arith);
}

abbrev reply : ℕ → Result Response
reply code =
    ok (record { status_code = code; body = record { content = code ∷ []; failure = none } })

-- Busy, then lost, then fine; the rest is not asked for.
abbrev pub busy_first : Net
busy_first = record { answers = reply 503 ∷ err lost ∷ reply 200 ∷ reply 404 ∷ []; log = [] }

abbrev pub post : Request
post = record {
  method = "POST";
  url = "https://example.org/chat";
  headers = [];
  body = some (record { content = 1 ∷ 2 ∷ []; failure = none });
  get_body = none;
}

abbrev options : Options
options = record { timeout = pos 0; max_body_size = pos 0; max_retries = pos 0; logger = none }

abbrev pub client : Client
client = record {
  http_timeout = pos (120 * 1000000000);
  stream_timeout = none;
  opts = record {
    timeout = pos (120 * 1000000000);
    max_body_size = pos (10 * 2 ^ 20);
    max_retries = pos 3;
    logger = some "default";
  };
}

do_request_scripted_example :
    (v : Net) × (do_request net client busy_first post
      ≡ some (v, first_final net 4 busy_first.answers lost))
do_request_scripted_example =
    do_request_scripted net (λ w. w.answers) client busy_first post 2 busy_first.answers [] lost
      net-IsScripted refl (omega arith) (inl refl) (λ b e. ground arith) refl refl

-- The request as it is sent, three times.
abbrev buffered_post : Request
buffered_post = record post {
  get_body = some (ok (record { content = 1 ∷ 2 ∷ []; failure = none }));
}

abbrev fine : Response
fine = record { status_code = 200; body = record { content = 200 ∷ []; failure = none } }

abbrev after : Net
after = record {
  answers = reply 404 ∷ [];
  log = buffered_post ∷ buffered_post ∷ buffered_post ∷ [];
}

busy_run : do_request net client busy_first post ≡ some (after, ok (some fine))
unfolding do_request crated.HttpClient.Exchange.buffer crated.HttpClient.retryable jitter_range
    crated.HttpClient.Backoff.capped backoff
busy_run = refl

do_request-Sends_example :
    (q : Request) × SameRequest q post × Sends (λ (w : Net). w.log) q 4 busy_first after
do_request-Sends_example =
    do_request-Sends net (λ w. w.log) client busy_first after post 2 (ok (some fine)) net-IsLogged
      refl (inl refl) busy_run

new_run : do_request net (new options) busy_first post ≡ some (after, ok (some fine))
unfolding do_request new crated.HttpClient.Exchange.buffer crated.HttpClient.retryable jitter_range
    crated.HttpClient.Backoff.capped backoff
new_run = refl

backoff_bounds_example :
    (v : ℕ) × (jitter_range (λ n. negsuc 0) 3 ≡ some (nominal 3 / 2))
    × (backoff (λ n. negsuc 0) 3 7 ≡ some v)
    × (nominal 3 * 3 ≤ v * 4)
    × (v * 4 < nominal 3 * 5)
backoff_bounds_example = backoff_bounds (λ n. negsuc 0) 3 7 (omega arith) (omega arith)

abbrev two_bytes : Reader
two_bytes = record { content = 1 ∷ 2 ∷ []; failure = none }

read_body_iff_example : (read_body (pos 2) two_bytes ≡ ok two_bytes.content) ↔ (
    (two_bytes.content ≡ two_bytes.content)
    × (length two_bytes.content ≤ 2)
    × (two_bytes.failure ≡ none))
read_body_iff_example = read_body_iff 2 two_bytes two_bytes.content (omega arith)
