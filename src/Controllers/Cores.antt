-- ===== src/Controllers/Cores.antt =====
-- internal/controllers/secret_controller.go and v1_controller.go: the resources of the core API; and
-- the nine reconcilers together, with their guards.
use bigip_kubernetes_gateway.Base.{
  String, Bool, not, ◌==◌, if◌then◌else◌, Option, none, some, returns, panics, ◌>>=◌,
}
use bigip_kubernetes_gateway.Api.{Namespace, Service, Endpoints, Secret}
use bigip_kubernetes_gateway.External.{External}
use bigip_kubernetes_gateway.K8s.Nodes.{Node, Unmarshalled}
use bigip_kubernetes_gateway.K8s.Nodes
use bigip_kubernetes_gateway.Cache.{
  get_secret, set_secret, unset_secret, get_namespace, set_namespace, unset_namespace,
  set_endpoints, unset_endpoints, set_service, unset_service,
}
use bigip_kubernetes_gateway.Cache.Secrets.{gateway_refs_of_secret}
use bigip_kubernetes_gateway.Cache.Impact.{ns_impacted_gateway_classes}
use bigip_kubernetes_gateway.Deploys.{handle_backends}
use bigip_kubernetes_gateway.Controllers.{
  Request, Fetched, got, absent, failed, Answer, finished, requeue, error, World, Step, deploys,
  with_store, Event, class_event, gateway_event, route_event, grant_event, secret_event,
  endpoints_event, service_event, node_event, namespace_event,
}
use bigip_kubernetes_gateway.Controllers.Gateways.{
  class_names, deploy_classes, reconcile_gateway, reconcile_class, reconcile_route, reconcile_grant,
}

abbrev pub answer_of : Option String → Answer
answer_of none = finished
answer_of (some e) = error e

-- After an error the second SetNamespace is left out; it changes nothing after the first.
abbrev pub then_set : Namespace → Step → Step
then_set obj (returns (w, error e)) = returns (w, error e)
then_set obj (returns (w, a)) = returns (with_store (set_namespace (some obj) w.store) w, finished)
then_set obj panics = panics

module _ ⦃ext : External⦄ (is_ipv6 : String → Bool) where
  -- The gateways that refer to the secret are only logged.
  unfoldable pub delete_secret : String → World → Step
  delete_secret key w =
      let (gws, err) = gateway_refs_of_secret (get_secret key w.store) w.store in
      returns (with_store (unset_secret key w.store) w, answer_of err)

  unfoldable pub upsert_secret : Secret → World → Step
  upsert_secret scrt w =
      let (gws, err) = gateway_refs_of_secret (some scrt) w.store in
      do
        c ← set_secret (some scrt) w.store
        elim err [
          | some e ↦ returns (with_store c w, error e)
          | none ↦ deploy_classes is_ipv6 (with_store c w) (class_names gws)
        ]

  unfoldable pub reconcile_secret : Request → Fetched Secret → World → Step
  reconcile_secret req (got obj) w = upsert_secret obj w
  reconcile_secret req absent w = delete_secret req.text w
  reconcile_secret req (failed e) w = returns (w, error e)

  unfoldable pub upsert_namespace : Option Namespace → Namespace → World → Step
  upsert_namespace none obj w = returns (with_store (set_namespace (some obj) w.store) w, finished)
  upsert_namespace (some ns) obj w =
      if not (ext.labels_equal ns.labels obj.labels)
      then then_set obj (
          deploy_classes is_ipv6 (with_store (set_namespace (some obj) w.store) w)
            (ns_impacted_gateway_classes (some obj) w.store))
      else returns (with_store (set_namespace (some obj) w.store) w, finished)

  unfoldable pub reconcile_namespace : Request → Fetched Namespace → World → Step
  reconcile_namespace req (got obj) w = upsert_namespace (get_namespace req.name w.store) obj w
  reconcile_namespace req absent w =
      returns (with_store (unset_namespace req.name w.store) w, finished)
  reconcile_namespace req (failed e) w = returns (w, error e)

  -- HandleBackends, on the state as it is.
  abbrev pub deploy_backends : World → String → Step
  deploy_backends w ns = deploys w (handle_backends w.store is_ipv6 w.nodes ns)

  unfoldable pub reconcile_endpoints : Request → Fetched Endpoints → World → Step
  reconcile_endpoints req (got obj) w =
      deploy_backends (with_store (set_endpoints (some obj) w.store) w) req.namespace
  reconcile_endpoints req absent w =
      deploy_backends (with_store (unset_endpoints req.text w.store) w) req.namespace
  reconcile_endpoints req (failed e) w = returns (w, error e)

  unfoldable pub reconcile_service : Request → Fetched Service → World → Step
  reconcile_service req (got obj) w =
      deploy_backends (with_store (set_service (some obj) w.store) w) req.namespace
  reconcile_service req absent w =
      deploy_backends (with_store (unset_service req.text w.store) w) req.namespace
  reconcile_service req (failed e) w = returns (w, error e)

-- The error of NodeCache.Set is dropped.
unfoldable pub reconcile_node : (String → Unmarshalled) → Request → Fetched Node → World → Step
reconcile_node unmarshal req (got obj) w = do
  r ← Nodes.set unmarshal obj w.nodes
  returns (record w { nodes = r.0 }, finished)
reconcile_node unmarshal req absent w =
    returns (record w { nodes = Nodes.unset req.name w.nodes }, finished)
reconcile_node unmarshal req (failed e) w = returns (w, error e)

-- if !pkg.ActiveSIGs.SyncedAtStart
abbrev pub guarded : World → Step → Step
guarded w s = if w.store.synced_at_start then s else returns (w, requeue)

-- Reconcile of each reconciler.
module _ ⦃ext : External⦄ (is_ipv6 : String → Bool) (unmarshal : String → Unmarshalled) where
  unfoldable pub reconcile : Event → World → Step
  reconcile (class_event req obj) w =
      if not (req.namespace == "")
      then returns (w, error "gateway class namespace must be ''")
      else guarded w (reconcile_class is_ipv6 req obj w)
  reconcile (gateway_event req obj) w = guarded w (reconcile_gateway is_ipv6 req obj w)
  reconcile (route_event req obj) w = guarded w (reconcile_route is_ipv6 req obj w)
  reconcile (grant_event req obj) w = guarded w (reconcile_grant is_ipv6 req obj w)
  reconcile (secret_event req obj) w = guarded w (reconcile_secret is_ipv6 req obj w)
  reconcile (endpoints_event req obj) w = reconcile_endpoints is_ipv6 req obj w
  reconcile (service_event req obj) w = reconcile_service is_ipv6 req obj w
  reconcile (node_event req obj) w = guarded w (reconcile_node unmarshal req obj w)
  reconcile (namespace_event req obj) w = guarded w (reconcile_namespace is_ipv6 req obj w)
