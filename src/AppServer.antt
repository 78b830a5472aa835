-- ===== src/AppServer.antt =====
-- src/app-server/: the JSON-RPC connection to an agent's server.
pub mod RpcClient
