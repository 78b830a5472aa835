-- ===== src/Webui/WebBus.antt =====
-- src/webui/web-bus.ts: the fan-out of worker events to the sockets of the web panel.
pub mod Replay
