-- ===== src/Client.antt =====
-- The wrappers of the three providers (app/services/*_client.py), and the retry loop they share.
pub mod Request
pub mod Retry
pub mod Effects
pub mod Anthropic
pub mod OpenAi
pub mod Timely
