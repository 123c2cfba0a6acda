-- ===== src/HttpClient.antt =====
-- internal/httpclient/client.go: the HTTP client of the providers. Here are its options and its
-- data; `Do` and `DoStream` are in HttpClient.Exchange, `ReadBody` in HttpClient.Body.
pub mod Body
pub mod Backoff
pub mod Exchange
pub mod Streaming
pub mod Attempts
pub mod Script
use crated.Prelude.{
  ℕ, zero, suc, ◌*◌, ◌^◌, Bool, Option, none, some, String, List, Error, Result, ◌||◌, eqb,
  if◌then◌else◌, ℤ, pos, negsuc,
}

-- Bytes of a request or response.
abbrev pub Bytes : Type 0
Bytes = List ℕ

-- What an io.Reader still delivers, and the error that ends it (`none` is io.EOF).
pub record Reader : Type 0 where
  pub content : Bytes
  pub failure : Option Error

-- The fields of http.Request that the client reads or writes. `get_body` is what `GetBody`
-- returns: a fresh reader at each call.
pub record Request : Type 0 where
  pub method : String
  pub url : String
  pub headers : List (String × String)
  pub body : Option Reader
  pub get_body : Option (Result Reader)

pub record Response : Type 0 where
  pub status_code : ℕ
  pub body : Reader

-- `retryableStatusCodes`
unfoldable pub retryable : ℕ → Bool
retryable code = eqb code 429 || eqb code 500 || eqb code 502 || eqb code 503 || eqb code 504

-- In nanoseconds.
abbrev pub second : ℕ
second = 1000000000

abbrev pub default_timeout : ℕ
default_timeout = 120 * second

abbrev pub default_max_body_size : ℕ
default_max_body_size = 10 * 2 ^ 20

abbrev pub default_max_retries : ℕ
default_max_retries = 3

-- `Options`; a logger is a name, slog.Default() the name "default".
pub record Options : Type 0 where
  pub timeout : ℤ
  pub max_body_size : ℤ
  pub max_retries : ℤ
  pub logger : Option String

-- `if x == 0 { x = d }`
abbrev pub or_default : ℤ → ℕ → ℤ
or_default (pos zero) d = pos d
or_default (pos (suc n)) d = pos (suc n)
or_default (negsuc n) d = negsuc n

abbrev pub retries : ℤ → ℤ
retries (pos zero) = pos default_max_retries
retries (pos (suc n)) = pos (suc n)
retries (negsuc n) = pos 0

abbrev pub or_default_logger : Option String → Option String
or_default_logger none = some "default"
or_default_logger (some l) = some l

-- `withDefaults`
unfoldable pub with_defaults : Options → Options
with_defaults o = record {
  timeout = or_default o.timeout default_timeout;
  max_body_size = or_default o.max_body_size default_max_body_size;
  max_retries = retries o.max_retries;
  logger = or_default_logger o.logger;
}

-- `Client`: the timeout of its http.Client, that of the client for streams once it exists, and
-- the options.
pub record Client : Type 0 where
  pub http_timeout : ℤ
  pub stream_timeout : Option ℤ
  pub opts : Options

-- `New`
unfoldable pub new : Options → Client
unfolding with_defaults
new opts =
    let o = with_defaults opts in
    record { http_timeout = o.timeout; stream_timeout = none; opts = o }
