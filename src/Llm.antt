-- ===== src/Llm.antt =====
-- The language-model side (src/llm): shared message types, and the key that a turn uses.
pub mod Types
pub mod Service
pub mod Chunks
pub mod OpenaiCompat
pub mod Anthropic
