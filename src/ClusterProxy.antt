-- ===== src/ClusterProxy.antt =====
-- The cluster proxy (cluster-proxy/server/main.go).
pub mod Proto
pub mod Kube
pub mod Conf
pub mod Workspace
pub mod Run
pub mod Dispose
pub mod Cluster
pub mod Status
pub mod Reports
pub mod Created
pub mod Started
pub mod Restore
pub mod Sizes
pub mod Description
pub mod Inventory
pub mod Leaks
pub mod FailedRuns
pub mod Unused
pub mod Storage
pub mod Ready
pub mod Disposal
pub mod Service
pub mod Startup
pub mod Commands
pub mod Placed
