-- ===== src/Deploys.antt =====
-- internal/pkg/utils.go: DeployForEvent and HandleBackends, the requests that an event puts into the
-- queue of the deployer. What they read of the store, in several calls, is one state here.
pub mod Distinct
pub mod Namespaces
pub mod Merged
pub mod Pools
pub mod Classes
pub mod Unrouted
pub mod Blocked
mod Tests
mod MirrorTests
use bigip_kubernetes_gateway.Base.{
  String, Bool, Option, none, some, List, [], ◌∷◌, ◌++◌, Outcome, returns, panics,
}
use bigip_kubernetes_gateway.Base.Attempt.{Attempt, done, fails, breaks, ◌>>=◌, of_outcome}
use bigip_kubernetes_gateway.Base.GoMap.{insert}
use bigip_kubernetes_gateway.Api.{Gateway, Service}
use bigip_kubernetes_gateway.External.{External}
use bigip_kubernetes_gateway.As3.{declaration_of}
use bigip_kubernetes_gateway.K8s.Nodes.{NodeCache}
use bigip_kubernetes_gateway.Cache.{
  SigCache, object_key, get_gateway_class, get_services_with_namespace,
}
use bigip_kubernetes_gateway.Cache.Impact.{get_root_gateways}
use bigip_kubernetes_gateway.Parser.{parse_all_for_class}
use bigip_kubernetes_gateway.Parser.Services.{
  Partitions, parse_services, parse_class_related_services,
}
use bigip_kubernetes_gateway.Deployer.{DeployRequest}

-- for k, cfg := range scfgs { ncfgs[k] = cfg }
unfoldable pub merge_configs : Partitions → Partitions → Partitions
merge_configs ncfgs [] = ncfgs
merge_configs ncfgs ((k, cfg) ∷ scfgs) = merge_configs (insert k cfg ncfgs) scfgs

module _ ⦃ext : External⦄ (c : SigCache) where
  unfoldable pub parse_classes : List String → Partitions → Attempt Partitions
  parse_classes [] ncfgs = done ncfgs
  parse_classes (n ∷ ns) ncfgs = do
    cfg ← parse_all_for_class c n
    parse_classes ns (insert n cfg ncfgs)

  -- The service's key, once for each of the gateways whose class is cached.
  unfoldable pub root_keys : Service → List Gateway → List String
  root_keys svc [] = []
  root_keys svc (gw ∷ gws) = elim (get_gateway_class gw.class_name c) [
    | none ↦ root_keys svc gws
    | some gwc ↦ object_key svc.namespace svc.name ∷ root_keys svc gws
  ]

  unfoldable pub backend_keys : List Service → Outcome (List String)
  backend_keys [] = returns []
  backend_keys (svc ∷ svcs) = elim (get_root_gateways (svc ∷ []) c) [
    | panics ↦ panics
    | returns gws ↦ elim (backend_keys svcs) [
      | panics ↦ panics
      | returns kn ↦ returns (root_keys svc gws ++ kn)
    ]
  ]

  module _ (is_ipv6 : String → Bool) (nodes : NodeCache) where
    unfoldable pub class_configs : List String → Attempt Partitions
    class_configs classes = do
      ncfgs ← parse_classes classes []
      scfgs ← parse_class_related_services is_ipv6 nodes c classes
      done (merge_configs ncfgs scfgs)

    -- The request that is put into the queue, if any.
    unfoldable pub deploy_for_event : List String → Attempt (Option DeployRequest)
    deploy_for_event [] = done none
    deploy_for_event (n ∷ ns) = do
      cfgs ← class_configs (n ∷ ns)
      done (some (record { declaration = declaration_of cfgs }))

    unfoldable pub backend_configs : String → List String → Attempt Partitions
    backend_configs ns [] = done ((ns, []) ∷ [])
    backend_configs ns (k ∷ kn) = parse_services is_ipv6 nodes c (k ∷ kn)

    unfoldable pub handle_backends : String → Attempt (Option DeployRequest)
    handle_backends ns = do
      kn ← of_outcome (backend_keys (get_services_with_namespace ns c))
      cfgs ← backend_configs ns kn
      done (some (record { declaration = declaration_of cfgs }))
