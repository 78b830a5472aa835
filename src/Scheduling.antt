-- ===== src/Scheduling.antt =====
-- src/scheduling/: durable schedules of worker sessions, the engine that fires them, and the ledger
-- that keeps a fire from being sent twice.
pub mod Schedules
pub mod Outbox
pub mod Engine
pub mod Service
