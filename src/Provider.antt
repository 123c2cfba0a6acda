-- ===== src/Provider.antt =====
-- internal/runtime/providers: the model providers.
pub mod Rounds
pub mod OpenAi
pub mod Anthropic
pub mod Gemini
pub mod Registration
