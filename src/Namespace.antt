-- ===== src/Namespace.antt =====
-- The namespace controller (namespace-controller/server).
pub mod Resolver
pub mod Admission
pub mod Server
