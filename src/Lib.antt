-- ===== src/Lib.antt =====
-- crated, the daemon that runs an AgentCrate agent in its container: it makes the models that an
-- Agentfile names, runs the agent over them with the ADK, and connects it to a frontend.
--
-- The parts, and the modules that model them:
--   internal/sse/reader.go              Sse: `read` is Read, over the lines that Sse.Scanner takes from
--                                       a stream as bufio.Scanner does; a range-over-func iterator is a
--                                       function of its consumer (`Yield`, `feed` of Prelude.Iter).
--                                       Sse.Pull has the same events as a list.
--   internal/ratelimit/limiter.go       RateLimit: `acquire` and `release` are the methods run without
--                                       interruption, `act` their atomic operations, one at a time;
--                                       RateLimit.Interleaving runs any number of goroutines, and
--                                       Statistics counts what has been done beside the counters.
--   internal/httpclient/client.go       HttpClient: `do_request` is Do, `do_stream` DoStream, `read_body`
--                                       ReadBody, `backoff` backoff. The outside is the record `World`.
--   internal/runtimecfg/config.go       RuntimeCfg: `load`, `save`, `find` (Lookup).
--   internal/runtime/models.go          Models: the providers' registry, `create_model` (createModel) and
--                                       `new_model_registry`; internal/runtime/providers fill it.
--   internal/runtime/providers/openai   Provider.OpenAi: Request and Response convert between the ADK's
--                                       data (Genai) and the API's; Stream is the loop over the events
--                                       (Provider.Rounds has what the providers' loops share); Model is
--                                       CreateModel, generateSync and generateStreaming.
--   internal/runtime/providers/anthropic  Provider.Anthropic, in the same parts; a tool call is handed on
--                                       when its block ends, and the answer at message_stop.
--   internal/runtime/providers/gemini   Provider.Gemini: CreateModel and the merge of the configuration, over
--                                       the ADK's model; Provider.Gemini.Sharing has the configurations
--                                       by their addresses. Provider.Registration is what the init
--                                       functions of all providers register.
--   internal/runtime/middleware         Middleware: the decorators that createModel puts around a model.
--   internal/runtime/runtime.go         Runtime: `init` (Init), `reload` and `close`, with the processes that
--                                       run and those that have been stopped.
--   internal/frontend/frontend.go       Frontend: `chat` is Chat, over the items of the ADK's runner;
--                                       the bridge, its sessions, and the registry of frontends.
--   internal/frontend/repl              Repl: `turn` and `run`, the loop of Run, over what is typed.
--   internal/frontend/playground        Playground: the origin check, and what a turn writes; Port is the
--                                       test of PLAYGROUND_PORT, Http the routes and Run, Connection a
--                                       WebSocket from its upgrade to its end.
--   internal/health/health.go           Health: the readiness flag, the probes and the metrics.
--   cmd/crated/main.go                  Command: Setup has the flags and what is read before the start,
--                                       Hangups the handler of SIGHUP, Signals that of interrupts, and
--                                       Run `run` and `main`, with the states on the way as a trace;
--                                       Process is the run beside the handler of interrupts, which may
--                                       cut it short.
-- A provider's request goes through HttpClient, its streamed answer through Sse (the modules Served put
-- these together), and the items it yields through Middleware; Frontend hands the events of a turn to
-- Playground and Repl. Command puts the parts together: RuntimeCfg, Models and Runtime at the start, then
-- Health and a frontend.
--
-- Bounds: a panic, or an operation that blocks, is `none`, and no function runs on fuel. `attempts` is
-- called with as many rounds as the loop's condition allows from attempt 0 on, MaxRetries + 1, so they are
-- always enough. Counters of Go's types are bit patterns, and every addition is taken modulo 2 ^ 64 or
-- 2 ^ 32. Texts are sequences of code points: all the characters that the code looks for are ASCII.
--
-- Parameters: the network, the clock, the random numbers, encoding/json, the file system, the
-- process's environment, package agentfile, the ADK and the MCP library. So is the order in which a
-- loop ranges over a map. What a frontend does in its Run until it comes back is a parameter of
-- Command, with the SIGHUPs that arrive meanwhile; Process has the runs that do not end. Not modelled:
-- the logs, but for the middleware's; the HTTP servers' own work; locks, where the code holds them
-- around one access; an interrupt that arrives while Init runs, but for the exit that a second one
-- forces. A turn's effect on the agent is that of the whole turn, also where the connection breaks
-- within it: by then nothing more reaches the browser.
pub mod Prelude
pub mod Sse
pub mod RateLimit
pub mod HttpClient
pub mod Dict
pub mod RuntimeCfg
pub mod Json
pub mod Genai
pub mod Models
pub mod Provider
pub mod Middleware
pub mod Frontend
pub mod Playground
pub mod Repl
pub mod Health
pub mod Runtime
pub mod Command
pub mod Tests
