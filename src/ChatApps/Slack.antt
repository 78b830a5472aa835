-- ===== src/ChatApps/Slack.antt =====
-- src/chat-apps/slack/: events from Slack, on their way to the assistant.
pub mod Events
pub mod Inbox
