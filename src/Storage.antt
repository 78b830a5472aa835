-- ===== src/Storage.antt =====
-- src/storage: the durable tables that the bot's parts share.
pub mod Deliveries
pub mod Operations
pub mod SourceContexts
pub mod SessionControls
