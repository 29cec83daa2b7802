-- ===== src/Llm.antt =====
-- packages/llm/src: what guards the calls of the language-model providers.
pub mod Circuit
pub mod Cost
pub mod Router
mod Tests
