-- ===== src/Router.antt =====
-- apps/api/src/aether/app/llm/router.py
pub mod Prompts
pub mod Envelope
pub mod Leak
pub mod Messages
pub mod Relay
pub mod Generate
