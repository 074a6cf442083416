-- ===== src/Controllers/Agreed.antt =====
-- The agreement of each reconciler with the API server.
use bigip_kubernetes_gateway.Base.{
  arith, String, Bool, true, false, not, ◌≡◌, refl, inl, inr, Option, none, some, List, returns,
  panics,
}
use bigip_kubernetes_gateway.Base.Attempt.{Attempt, done, fails, breaks}
use bigip_kubernetes_gateway.Base.GoMap.{lookup, insert, lookup-insert_same, lookup-delete_same}
use bigip_kubernetes_gateway.Api.{
  Namespace, GatewayClass, Gateway, HttpRoute, ReferenceGrant, Secret, Service, Endpoints,
}
use bigip_kubernetes_gateway.External.{External}
use bigip_kubernetes_gateway.K8s.Nodes
use bigip_kubernetes_gateway.K8s.Nodes.{Node, Unmarshalled}
use bigip_kubernetes_gateway.K8s.Nodes.Laws.{set-Updated}
use bigip_kubernetes_gateway.Deployer.{DeployRequest, DeployState}
use bigip_kubernetes_gateway.Cache.{
  SigCache, object_key, get_namespace, set_namespace, unset_namespace, get_gateway_class,
  set_gateway_class, unset_gateway_class, get_gateway, set_gateway, unset_gateway, get_http_route,
  set_http_route, unset_http_route, get_endpoints, set_endpoints, unset_endpoints, get_service,
  set_service, unset_service, get_secret, set_secret, unset_secret, get_reference_grant,
  set_reference_grant, unset_reference_grant,
}
use bigip_kubernetes_gateway.Cache.Laws.{get-set_reference_grant, get-unset_reference_grant}
use bigip_kubernetes_gateway.Cache.Attached.{gateway_refs_of_hr}
use bigip_kubernetes_gateway.Cache.Impact.{rg_impacted_gateway_classes}
use bigip_kubernetes_gateway.Controllers.{
  Request, Fetched, got, absent, failed, finished, error, World, Step, deploys, with_store,
  class_event, gateway_event, route_event, grant_event, secret_event, endpoints_event,
  service_event, node_event, namespace_event,
}
use bigip_kubernetes_gateway.Controllers.Gateways.{
  deploy_classes, swallowed, delete_gateway, upsert_gateway, reconcile_gateway, delete_class,
  upsert_class, reconcile_class, delete_route, upsert_route, reconcile_route, delete_grant,
  upsert_grant, reconcile_grant,
}
use bigip_kubernetes_gateway.Controllers.Cores.{
  delete_secret, upsert_secret, reconcile_secret, then_set, upsert_namespace, reconcile_namespace,
  reconcile_endpoints, reconcile_service, reconcile_node,
}
use bigip_kubernetes_gateway.Controllers.Agreement.{
  Agrees, Leads, Leads-returns, Leads-panics, Leads-deploys, Leads-after, Leads-if, Leads-branch,
}

module _ ⦃ext : External⦄ (is_ipv6 : String → Bool) (unmarshal : String → Unmarshalled) where
  delete_gateway-Agrees :
      (req : Request) (o : Option Gateway) (w : World)
      → Leads (Agrees unmarshal w (gateway_event req absent)) (delete_gateway is_ipv6 req.text o w)
  unfolding delete_gateway get_gateway unset_gateway
  delete_gateway-Agrees req none w = Leads-panics (Agrees unmarshal w (gateway_event req absent))
  delete_gateway-Agrees req (some gw) w =
      Leads-deploys (Agrees unmarshal w (gateway_event req absent)) _ _
        (λ d. lookup-delete_same req.text w.store.gateway)

  pub gateway-Agrees :
      (req : Request) (o : Fetched Gateway) (w : World)
      → Leads (Agrees unmarshal w (gateway_event req o)) (reconcile_gateway is_ipv6 req o w)
  unfolding reconcile_gateway upsert_gateway get_gateway set_gateway
  gateway-Agrees req (got obj) w =
      Leads-deploys (Agrees unmarshal w (gateway_event req (got obj))) _ _
        (λ d. lookup-insert_same _ obj w.store.gateway)
  gateway-Agrees req absent w = delete_gateway-Agrees req _ w
  gateway-Agrees req (failed e) w =
      Leads-returns (Agrees unmarshal w (gateway_event req (failed e))) w _ refl

  of_not : {b : Bool} → not b ≡ true → b ≡ false
  of_not {b} h = ground arith

  delete_class-Agrees :
      (req : Request) (o : Option GatewayClass) (w : World)
      → get_gateway_class req.name w.store ≡ o
      → Leads (Agrees unmarshal w (class_event req absent)) (delete_class is_ipv6 req.name o w)
  unfolding delete_class get_gateway_class unset_gateway_class
  delete_class-Agrees req none w e =
      Leads-returns (Agrees unmarshal w (class_event req absent)) w finished e
  delete_class-Agrees req (some gwc) w e =
      Leads-deploys (Agrees unmarshal w (class_event req absent)) _ _
        (λ d. lookup-delete_same req.name w.store.gateway_class)

  pub class-Agrees :
      (req : Request) (o : Fetched GatewayClass) (w : World)
      → Leads (Agrees unmarshal w (class_event req o)) (reconcile_class is_ipv6 req o w)
  unfolding reconcile_class upsert_class get_gateway_class set_gateway_class
  class-Agrees req (got obj) w =
      Leads-if (Agrees unmarshal w (class_event req (got obj))) _ _ _
        (λ other.
          Leads-returns (Agrees unmarshal w (class_event req (got obj))) w finished
            (inr (of_not other)))
        (λ owned.
          Leads-deploys (Agrees unmarshal w (class_event req (got obj))) _ _
            (λ d. inl (lookup-insert_same obj.name obj w.store.gateway_class)))
  class-Agrees req absent w = delete_class-Agrees req _ w refl
  class-Agrees req (failed e) w =
      Leads-returns (Agrees unmarshal w (class_event req (failed e))) w _ refl

  pub route-Agrees :
      (req : Request) (o : Fetched HttpRoute) (w : World)
      → Leads (Agrees unmarshal w (route_event req o)) (reconcile_route is_ipv6 req o w)
  unfolding reconcile_route upsert_route delete_route get_http_route set_http_route unset_http_route
  route-Agrees req (got obj) w =
      let P = Agrees unmarshal w (route_event req (got obj)) in
      Leads-after P (gateway_refs_of_hr (lookup req.text w.store.http_route) w.store) _ (λ ogws h.
        Leads-after P (gateway_refs_of_hr (some obj) w.store) _ (λ ngws h'.
          Leads-deploys P (with_store (set_http_route (some obj) w.store) w) _
            (λ d. lookup-insert_same _ obj w.store.http_route)))
  route-Agrees req absent w =
      let P = Agrees unmarshal w (route_event req absent) in
      Leads-after P (gateway_refs_of_hr (lookup req.text w.store.http_route) w.store) _ (λ gws h.
        Leads-deploys P (with_store (unset_http_route req.text w.store) w) _
          (λ d. lookup-delete_same req.text w.store.http_route))
  route-Agrees req (failed e) w =
      Leads-returns (Agrees unmarshal w (route_event req (failed e))) w _ refl

  swallowed-Leads : (P : World → Type 0) (s : Step) → Leads P s → Leads P (swallowed s)
  swallowed-Leads P (returns (v, a)) h = Leads-returns P v finished (h v a refl)
  swallowed-Leads P panics h = Leads-panics P

  pub grant-Agrees :
      (req : Request) (o : Fetched ReferenceGrant) (w : World)
      → Leads (Agrees unmarshal w (grant_event req o)) (reconcile_grant is_ipv6 req o w)
  unfolding reconcile_grant upsert_grant delete_grant
  grant-Agrees req (got obj) w =
      let P = Agrees unmarshal w (grant_event req (got obj)) in
      Leads-after P (rg_impacted_gateway_classes (get_reference_grant req.text w.store) w.store) _
        (λ ocls h. Leads-after P (rg_impacted_gateway_classes (some obj) w.store) _ (λ ncls h'.
          swallowed-Leads P _ (
            Leads-deploys P (with_store (set_reference_grant (some obj) w.store) w) _
              (λ d. get-set_reference_grant w.store obj))))
  grant-Agrees req absent w =
      let P = Agrees unmarshal w (grant_event req absent) in
      Leads-after P (rg_impacted_gateway_classes (get_reference_grant req.text w.store) w.store) _
        (λ cls h.
          Leads-deploys P (with_store (unset_reference_grant req.text w.store) w) _
            (λ d. get-unset_reference_grant w.store req.text))
  grant-Agrees req (failed e) w =
      Leads-returns (Agrees unmarshal w (grant_event req (failed e))) w _ refl

  stored_secret-Agrees :
      (P : World → Type 0) (v : World) (err : Option String) (cls : List String)
      → ((d : DeployState) → P (record v { deployer = d }))
      → Leads P (elim err [ some e ↦ returns (v, error e) | none ↦ deploy_classes is_ipv6 v cls ])
  stored_secret-Agrees P v (some e) cls h = Leads-returns P v (error e) (h v.deployer)
  stored_secret-Agrees P v none cls h = Leads-deploys P v _ h

  secret_found :
      (scrt : Secret) (c d : SigCache)
      → set_secret (some scrt) c ≡ returns d
      → get_secret (object_key scrt.namespace scrt.name) d ≡ some scrt
  unfolding get_secret set_secret
  secret_found scrt c d e =
      let same : record c { secret = insert (object_key scrt.namespace scrt.name) scrt c.secret }
          ≡ d =
        cc in
      rw (← same) (lookup-insert_same _ scrt c.secret)

  pub secret-Agrees :
      (req : Request) (o : Fetched Secret) (w : World)
      → Leads (Agrees unmarshal w (secret_event req o)) (reconcile_secret is_ipv6 req o w)
  unfolding reconcile_secret upsert_secret delete_secret get_secret unset_secret
  secret-Agrees req (got obj) w =
      let P = Agrees unmarshal w (secret_event req (got obj)) in
      Leads-after P (set_secret (some obj) w.store) _
        (λ c h. stored_secret-Agrees P (with_store c w) _ _ (λ d. secret_found obj w.store c h))
  secret-Agrees req absent w =
      Leads-returns (Agrees unmarshal w (secret_event req absent)) _ _
        (lookup-delete_same req.text w.store.secret)
  secret-Agrees req (failed e) w =
      Leads-returns (Agrees unmarshal w (secret_event req (failed e))) w _ refl

  pub endpoints-Agrees :
      (req : Request) (o : Fetched Endpoints) (w : World)
      → Leads (Agrees unmarshal w (endpoints_event req o)) (reconcile_endpoints is_ipv6 req o w)
  unfolding reconcile_endpoints get_endpoints set_endpoints unset_endpoints
  endpoints-Agrees req (got obj) w =
      Leads-deploys (Agrees unmarshal w (endpoints_event req (got obj))) _ _
        (λ d. lookup-insert_same _ obj w.store.endpoints)
  endpoints-Agrees req absent w =
      Leads-deploys (Agrees unmarshal w (endpoints_event req absent)) _ _
        (λ d. lookup-delete_same req.text w.store.endpoints)
  endpoints-Agrees req (failed e) w =
      Leads-returns (Agrees unmarshal w (endpoints_event req (failed e))) w _ refl

  pub service-Agrees :
      (req : Request) (o : Fetched Service) (w : World)
      → Leads (Agrees unmarshal w (service_event req o)) (reconcile_service is_ipv6 req o w)
  unfolding reconcile_service get_service set_service unset_service
  service-Agrees req (got obj) w =
      Leads-deploys (Agrees unmarshal w (service_event req (got obj))) _ _
        (λ d. lookup-insert_same _ obj w.store.service)
  service-Agrees req absent w =
      Leads-deploys (Agrees unmarshal w (service_event req absent)) _ _
        (λ d. lookup-delete_same req.text w.store.service)
  service-Agrees req (failed e) w =
      Leads-returns (Agrees unmarshal w (service_event req (failed e))) w _ refl

  pub node-Agrees :
      (req : Request) (o : Fetched Node) (w : World)
      → Leads (Agrees unmarshal w (node_event req o)) (reconcile_node unmarshal req o w)
  unfolding reconcile_node Nodes.get Nodes.unset
  node-Agrees req (got obj) w =
      Leads-after (Agrees unmarshal w (node_event req (got obj))) (Nodes.set unmarshal obj w.nodes)
        _
        (λ r h.
          Leads-returns (Agrees unmarshal w (node_event req (got obj))) (record w { nodes = r.0 })
            finished (r.1, set-Updated unmarshal obj w.nodes r.0 r.1 h))
  node-Agrees req absent w =
      Leads-returns (Agrees unmarshal w (node_event req absent))
        (record w { nodes = Nodes.unset req.name w.nodes }) finished
        (lookup-delete_same req.name w.nodes)
  node-Agrees req (failed e) w =
      Leads-returns (Agrees unmarshal w (node_event req (failed e))) w _ refl

  then_set-Agrees :
      (req : Request) (obj : Namespace) (w : World) (m : Attempt (Option DeployRequest))
      → Leads
          (Agrees unmarshal w (namespace_event req (got obj)))
          (then_set obj (deploys (with_store (set_namespace (some obj) w.store) w) m))
  unfolding get_namespace set_namespace
  then_set-Agrees req obj w (done o) =
      Leads-returns (Agrees unmarshal w (namespace_event req (got obj))) _ _
        (lookup-insert_same _ _ _)
  then_set-Agrees req obj w (fails e) =
      Leads-returns (Agrees unmarshal w (namespace_event req (got obj))) _ _
        (lookup-insert_same _ _ _)
  then_set-Agrees req obj w breaks =
      Leads-panics (Agrees unmarshal w (namespace_event req (got obj)))

  upsert_namespace-Agrees :
      (req : Request) (o : Option Namespace) (obj : Namespace) (w : World)
      → Leads
          (Agrees unmarshal w (namespace_event req (got obj)))
          (upsert_namespace is_ipv6 o obj w)
  unfolding upsert_namespace get_namespace set_namespace
  upsert_namespace-Agrees req none obj w =
      Leads-returns (Agrees unmarshal w (namespace_event req (got obj))) _ finished
        (lookup-insert_same obj.name obj w.store.namespace)
  upsert_namespace-Agrees req (some ns) obj w =
      Leads-branch (Agrees unmarshal w (namespace_event req (got obj))) _ _ _
        (then_set-Agrees req obj w _)
        (Leads-returns (Agrees unmarshal w (namespace_event req (got obj))) _ finished
          (lookup-insert_same obj.name obj w.store.namespace))

  pub namespace-Agrees :
      (req : Request) (o : Fetched Namespace) (w : World)
      → Leads (Agrees unmarshal w (namespace_event req o)) (reconcile_namespace is_ipv6 req o w)
  unfolding reconcile_namespace get_namespace unset_namespace
  namespace-Agrees req (got obj) w = upsert_namespace-Agrees req _ obj w
  namespace-Agrees req absent w =
      Leads-returns (Agrees unmarshal w (namespace_event req absent)) _ finished
        (lookup-delete_same req.name w.store.namespace)
  namespace-Agrees req (failed e) w =
      Leads-returns (Agrees unmarshal w (namespace_event req (failed e))) w _ refl
