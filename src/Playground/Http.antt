-- ===== src/Playground/Http.antt =====
-- The HTTP server of internal/frontend/playground/playground.go: its routes and handlers, and how
-- `Run` ends.
use crated.Prelude.{
  ℕ, not, String, [], ◌∷◌, Option, none, some, Error, errorf, wrapf, str, if◌then◌else◌, ◌==◌,
}
use crated.Prelude.Text.{has_prefix, after_prefix, ◌<>◌}
use crated.Playground.Port.{port_number, port_of}

pub record Reply : Type 0 where
  pub code : ℕ
  pub content_type : String
  pub body : String

-- The handler of "/", where `index` is static/index.html if it is embedded; the replies of
-- http.NotFound and http.Error are plain text.
unfoldable pub handle_index : Option String → String → Reply
handle_index index path =
    if not (path == "/")
    then record {
      code = 404;
      content_type = "text/plain; charset=utf-8";
      body = "404 page not found\n";
    }
    else elim index [
      | none ↦ record {
        code = 500;
        content_type = "text/plain; charset=utf-8";
        body = "index.html not found\n";
      }
      | some page ↦ record { code = 200; content_type = "text/html; charset=utf-8"; body = page }
    ]

abbrev pub health : Reply
health = record { code = 200; content_type = "application/json"; body = "{\"status\":\"ok\"}" }

-- What answers a path: the patterns that `Run` registers, the longest of which counts. The files and
-- the WebSocket have handlers of their own.
pub data Route : Type 0 where
  static_files socket : Route
  page : Reply → Route

unfoldable pub route : Option String → String → Route
unfolding handle_index after_prefix
route index path =
    if path == "/api/health"
    then page health
    else if path == "/ws"
    then socket
    else if has_prefix path "/static/"
    then static_files
    else page (handle_index index path)

-- How server.Serve ends: with http.ErrServerClosed, or another error.
pub data ServeEnd : Type 0 where
  server_closed : ServeEnd
  serve_failed : Error → ServeEnd

-- `Run`: the error of fs.Sub, PLAYGROUND_PORT, net.Listen for an address, and the end of the server.
unfoldable pub run : Option Error → String → (String → Option Error) → ServeEnd → Option Error
unfolding port_of port_number
run static_error env listen end = elim static_error [
  | some e ↦ some (wrapf "loading static files: %w" [] e)
  | none ↦ elim (port_number (port_of env)) [
    | none ↦ some (
        errorf "invalid PLAYGROUND_PORT %q: must be an integer between 1 and 65535"
          (str (port_of env) ∷ []))
    | some n ↦ elim (listen (":" <> port_of env)) [
      | some e ↦ some (wrapf "listening on :%s: %w" (str (port_of env) ∷ []) e)
      | none ↦ elim end [
        | server_closed ↦ none
        | serve_failed e ↦ some (wrapf "http server: %w" [] e)
      ]
    ]
  ]
]
