-- ===== src/Rancher.antt =====
-- The Rancher API client (upstream/rancher-go/client): its data and its interface.
pub mod Types
pub mod Client
pub mod Bytes
pub mod Ldap
pub mod Http
pub mod DefaultClient
pub mod Yaml
