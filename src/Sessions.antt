-- ===== src/Sessions.antt =====
-- src/sessions/: what the bot does for managed worker sessions.
pub mod TransientRetry
pub mod RestartRecovery
