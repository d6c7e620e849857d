-- ===== src/Tests.antt =====
-- Tests, and the theorems at concrete inputs.
mod Cluster
mod Resolver
mod Admission
mod Memory
mod Pods
mod Rancher
mod Proxy
mod Reports
mod Failures
mod Server
mod Startup
mod Ready
mod Overlaps
