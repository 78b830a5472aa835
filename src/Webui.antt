-- ===== src/Webui.antt =====
-- src/webui/: the server side of the web panel.
pub mod WebBus
