-- ===== src/Controllers/Guards.antt =====
-- The reconcilers with their guards, after the synchronisation at start.
use bigip_kubernetes_gateway.External.{External}
