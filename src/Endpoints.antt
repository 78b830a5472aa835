-- ===== src/Endpoints.antt =====
-- src/endpoints/: the lifecycle of worker endpoints.
pub mod AdmissionGate
