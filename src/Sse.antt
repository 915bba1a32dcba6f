-- ===== src/Sse.antt =====
-- src/sse.rs: events and frames. The state machines over the events are in the children.
pub mod Framer
pub mod Stream
mod Tests
