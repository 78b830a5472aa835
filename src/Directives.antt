-- ===== src/Directives.antt =====
-- src/directives/: the directives in a message.
pub mod Parser
