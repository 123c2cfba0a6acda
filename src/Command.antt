-- ===== src/Command.antt =====
-- cmd/crated/main.go: the command, from its flags to the exit of the process. The package agentfile,
-- the ADK and the operating system are parameters; what a frontend does in its Run until it comes back, and
-- the SIGHUPs that arrive meanwhile, are what a function `serve` gives; `Process` is the run cut short,
-- by a frontend that does not come back or by a second interrupt.
pub mod Setup
pub mod Hangups
pub mod Run
pub mod Reloads
pub mod Shutdown
pub mod Serving
pub mod Outcome
pub mod Signals
pub mod Process
pub mod Assembly
