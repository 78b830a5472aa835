-- ===== src/ChatApps.antt =====
-- src/chat-apps: the code that the chat surfaces share.
pub mod DeliveryWorker
pub mod Slack
