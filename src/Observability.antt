-- ===== src/Observability.antt =====
-- packages/observability/src: the primitives that keep a failing dependency from being hammered.
pub mod Backoff
pub mod Budget
pub mod Sentinel
mod Tests
