-- ===== src/K8s.antt =====
-- internal/k8s: the nodes of the cluster, and the pool members of a service.
pub mod Nodes
pub mod Members
mod Tests
