-- ===== src/Tests.antt =====
-- Runs of the models on concrete inputs, and the theorems applied to them.
mod Network
mod Endpoint
mod Streams
mod OpenAi
mod Served
mod Chunks
mod Gemini
mod Lifecycle
mod Command
mod Anthropic
mod Registries
mod Interfaces
mod Frontends
mod Providers
