-- ===== src/Assistant.antt =====
-- src/assistant/: the assistant's own session.
pub mod LifecycleBuffer
pub mod Scheduler
pub mod AttemptScope
