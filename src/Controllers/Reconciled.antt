-- ===== src/Controllers/Reconciled.antt =====
-- The effect of each reconciler.
use bigip_kubernetes_gateway.Base.{
  String, Bool, true, false, if◌then◌else◌, ◌≡◌, refl, ap, inl, inr, Option, none, some, List, ◌++◌,
  ◌==◌, not, Bool-cases, Outcome, returns, panics, ◌>>=◌,
}
use bigip_kubernetes_gateway.Api.{
  Namespace, GatewayClass, Gateway, HttpRoute, ReferenceGrant, Secret, Service, Endpoints,
}
use bigip_kubernetes_gateway.Base.Attempt.{Attempt, done, fails, breaks}
use bigip_kubernetes_gateway.Base.GoMap.{delete_absent, insert_again}
use bigip_kubernetes_gateway.Deployer.{DeployRequest}
use bigip_kubernetes_gateway.External.{External}
use bigip_kubernetes_gateway.K8s.Nodes
use bigip_kubernetes_gateway.K8s.Nodes.{Node, Unmarshalled}
use bigip_kubernetes_gateway.Cache.{
  SigCache, get_gateway_class, unset_gateway_class, set_namespace, get_http_route,
  get_reference_grant, set_reference_grant,
}
use bigip_kubernetes_gateway.Cache.Attached.{gateway_refs_of_hr}
use bigip_kubernetes_gateway.Cache.Impact.{rg_impacted_gateway_classes}
use bigip_kubernetes_gateway.Cache.GrantIndex.Reach.{apply}
use bigip_kubernetes_gateway.Deploys.Distinct.{
  Declares, deploy_for_event-Declares, handle_backends-Declares,
}
use bigip_kubernetes_gateway.Controllers.{
  Request, Fetched, got, absent, failed, Answer, finished, requeue, error, World, Step, deploys,
  with_store, Event, class_event, gateway_event, route_event, grant_event, secret_event,
  endpoints_event, service_event, node_event, namespace_event,
}
use bigip_kubernetes_gateway.Controllers.Gateways.{
  class_names, deploy_classes, swallowed, delete_gateway, upsert_gateway, reconcile_gateway,
  delete_class, upsert_class, reconcile_class, delete_route, upsert_route, reconcile_route,
  delete_grant, upsert_grant, reconcile_grant,
}
use bigip_kubernetes_gateway.Controllers.Cores.{
  delete_secret, upsert_secret, reconcile_secret, then_set, upsert_namespace, reconcile_namespace,
  deploy_backends, reconcile_endpoints, reconcile_service, reconcile_node, guarded, reconcile,
}
use bigip_kubernetes_gateway.Controllers.Effects.{
  is_of_node, update_of, apply_if, expected, Effect, HasEffect, of_returned, stores, nothing,
  broken, deploys-HasEffect, after,
}

unset_gateway_class-absent :
    (n : String) (c : SigCache) → get_gateway_class n c ≡ none → unset_gateway_class n c ≡ c
unfolding get_gateway_class unset_gateway_class
unset_gateway_class-absent n c h = rw (delete_absent n c.gateway_class h) refl

module _ ⦃ext : External⦄ (is_ipv6 : String → Bool) (unmarshal : String → Unmarshalled) where
  -- The step of a reconciler whose guards have let the event through.
  abbrev Does : Event → World → Step → Type 0
  Does ev w s = HasEffect (apply_if (update_of ev w.store) w.store) (is_of_node ev) w s

  module _ {x : Outcome SigCache} {n : Bool} where
    changed_classes :
        (w : World) (c : SigCache) (cls : List String)
        → x ≡ returns c
        → HasEffect x n w (deploy_classes is_ipv6 (with_store c w) cls)
    changed_classes w c cls e =
        deploys-HasEffect w c _ e (deploy_for_event-Declares c is_ipv6 w.nodes cls)

    changed_backends :
        (w : World) (c : SigCache) (ns : String)
        → x ≡ returns c
        → HasEffect x n w (deploy_backends is_ipv6 (with_store c w) ns)
    changed_backends w c ns e =
        deploys-HasEffect w c _ e (handle_backends-Declares c is_ipv6 w.nodes ns)

    -- The classes come from a call that may panic.
    then_classes :
        {A : Type 0} (w : World) (m : Outcome A) (classes : A → List String) (c : SigCache)
        → x ≡ returns c
        → HasEffect x n w (m >>= λ a. deploy_classes is_ipv6 (with_store c w) (classes a))
    then_classes w m classes c e = after w m _ (λ a h. changed_classes w c (classes a) e)

    -- Only the answer is lost.
    swallowed-HasEffect : (w : World) (s : Step) → HasEffect x n w s → HasEffect x n w (swallowed s)
    swallowed-HasEffect w (returns (v, a)) h w' a' e =
        let f = h v a refl in
        of_returned w w' v finished a'
          (record { changes = f.changes; nodes = f.nodes; queued = f.queued; quiet = λ e' k. cc k })
          e
    swallowed-HasEffect w panics h w' a' e = cc e

    stored_secret-HasEffect :
        (w : World) (err : Option String) (c : SigCache) (cls : List String)
        → x ≡ returns c
        → HasEffect x n w (elim err [
          | some e ↦ returns (with_store c w, error e)
          | none ↦ deploy_classes is_ipv6 (with_store c w) cls
        ])
    stored_secret-HasEffect w (some e) c cls h =
        stores w (with_store c w) (error e) h (λ k. refl) refl
    stored_secret-HasEffect w none c cls h = changed_classes w c cls h

    -- A step that changes the store alone.
    stored :
        (w : World) (c : SigCache) (a : Answer)
        → x ≡ returns c
        → HasEffect x n w (returns (with_store c w, a))
    stored w c a e = stores w (with_store c w) a e (λ k. refl) refl

  delete_gateway-Does :
      (w : World) (req : Request) (o : Option Gateway)
      → Does (gateway_event req absent) w (delete_gateway is_ipv6 req.text o w)
  unfolding delete_gateway apply
  delete_gateway-Does w req none = broken w
  delete_gateway-Does w req (some gw) = changed_classes w _ _ refl

  gateway-Does :
      (w : World) (req : Request) (o : Fetched Gateway)
      → Does (gateway_event req o) w (reconcile_gateway is_ipv6 req o w)
  unfolding reconcile_gateway upsert_gateway apply
  gateway-Does w req (got obj) = changed_classes w _ _ refl
  gateway-Does w req absent = delete_gateway-Does w req _
  gateway-Does w req (failed e) = nothing w (error e) refl

  delete_class-Does :
      (w : World) (req : Request) (o : Option GatewayClass)
      → get_gateway_class req.name w.store ≡ o
      → Does (class_event req absent) w (delete_class is_ipv6 req.name o w)
  unfolding delete_class apply
  delete_class-Does w req none h =
      nothing w finished (ap returns (unset_gateway_class-absent req.name w.store h))
  delete_class-Does w req (some gwc) h = changed_classes w _ _ refl

  upsert_class-Does :
      (w : World) (req : Request) (obj : GatewayClass)
      → Does (class_event req (got obj)) w (upsert_class is_ipv6 req.name obj w)
  unfolding upsert_class apply
  upsert_class-Does w req obj =
      elim (Bool-cases (not (obj.controller_name == w.store.controller_name))) [
        | inl other ↦ rw other (nothing w finished refl)
        | inr owned ↦ rw owned (changed_classes w _ _ refl)
      ]

  class-Does :
      (w : World) (req : Request) (o : Fetched GatewayClass)
      → Does (class_event req o) w (reconcile_class is_ipv6 req o w)
  unfolding reconcile_class
  class-Does w req (got obj) = upsert_class-Does w req obj
  class-Does w req absent = delete_class-Does w req _ refl
  class-Does w req (failed e) = nothing w (error e) refl

  route-Does :
      (w : World) (req : Request) (o : Fetched HttpRoute)
      → Does (route_event req o) w (reconcile_route is_ipv6 req o w)
  unfolding reconcile_route upsert_route delete_route apply
  route-Does w req (got obj) =
      after w (gateway_refs_of_hr (get_http_route req.text w.store) w.store) _ (λ ogws h.
        then_classes w (gateway_refs_of_hr (some obj) w.store)
          (λ ngws. ext.unified (class_names (ogws ++ ngws))) _ refl)
  route-Does w req absent =
      then_classes w (gateway_refs_of_hr (get_http_route req.text w.store) w.store) class_names _
        refl
  route-Does w req (failed e) = nothing w (error e) refl

  grant-Does :
      (w : World) (req : Request) (o : Fetched ReferenceGrant)
      → Does (grant_event req o) w (reconcile_grant is_ipv6 req o w)
  unfolding reconcile_grant upsert_grant delete_grant apply
  grant-Does w req (got obj) =
      after w (rg_impacted_gateway_classes (get_reference_grant req.text w.store) w.store) _
        (λ ocls h.
          after w (rg_impacted_gateway_classes (some obj) w.store)
            (λ ncls. swallowed (
              deploy_classes is_ipv6 (with_store (set_reference_grant (some obj) w.store) w)
                (ext.unified (ocls ++ ncls))))
            (λ ncls k.
              swallowed-HasEffect w _ (changed_classes w _ (ext.unified (ocls ++ ncls)) refl)))
  grant-Does w req absent =
      then_classes w (rg_impacted_gateway_classes (get_reference_grant req.text w.store) w.store)
        (λ cls. cls) _ refl
  grant-Does w req (failed e) = nothing w (error e) refl

  secret-Does :
      (w : World) (req : Request) (o : Fetched Secret)
      → Does (secret_event req o) w (reconcile_secret is_ipv6 req o w)
  unfolding reconcile_secret upsert_secret delete_secret apply
  secret-Does w req (got obj) = after w _ _ (λ c h. stored_secret-HasEffect w _ c _ h)
  secret-Does w req absent = stored w _ _ refl
  secret-Does w req (failed e) = nothing w (error e) refl

  endpoints-Does :
      (w : World) (req : Request) (o : Fetched Endpoints)
      → Does (endpoints_event req o) w (reconcile_endpoints is_ipv6 req o w)
  unfolding reconcile_endpoints apply
  endpoints-Does w req (got obj) = changed_backends w _ _ refl
  endpoints-Does w req absent = changed_backends w _ _ refl
  endpoints-Does w req (failed e) = nothing w (error e) refl

  service-Does :
      (w : World) (req : Request) (o : Fetched Service)
      → Does (service_event req o) w (reconcile_service is_ipv6 req o w)
  unfolding reconcile_service apply
  service-Does w req (got obj) = changed_backends w _ _ refl
  service-Does w req absent = changed_backends w _ _ refl
  service-Does w req (failed e) = nothing w (error e) refl

  node-Does :
      (w : World) (req : Request) (o : Fetched Node)
      → Does (node_event req o) w (reconcile_node unmarshal req o w)
  unfolding reconcile_node
  node-Does w req (got obj) =
      after w (Nodes.set unmarshal obj w.nodes) _
        (λ r h. stores w (record w { nodes = r.0 }) finished refl (λ k. cc k) refl)
  node-Does w req absent =
      stores w (record w { nodes = Nodes.unset req.name w.nodes }) finished refl (λ k. cc k) refl
  node-Does w req (failed e) = nothing w (error e) refl

  set_again :
      (obj : Namespace) (c : SigCache)
      → set_namespace (some obj) (set_namespace (some obj) c) ≡ set_namespace (some obj) c
  unfolding set_namespace
  set_again obj c = rw insert_again refl

  then_set-Does :
      (w : World) (req : Request) (obj : Namespace) (m : Attempt (Option DeployRequest))
      → Declares m
      → Does
          (namespace_event req (got obj))
          w
          (then_set obj (deploys (with_store (set_namespace (some obj) w.store) w) m))
  unfolding apply
  then_set-Does w req obj (done o) h = rw set_again (deploys-HasEffect w _ (done o) refl h)
  then_set-Does w req obj (fails e) h = deploys-HasEffect w _ (fails e) refl h
  then_set-Does w req obj breaks h = broken w

  if-HasEffect :
      {x : Outcome SigCache} {n : Bool} (w : World) (b : Bool) (s t : Step)
      → HasEffect x n w s
      → HasEffect x n w t
      → HasEffect x n w (if b then s else t)
  if-HasEffect w true s t h k = h
  if-HasEffect w false s t h k = k

  upsert_namespace-Does :
      (w : World) (req : Request) (o : Option Namespace) (obj : Namespace)
      → Does (namespace_event req (got obj)) w (upsert_namespace is_ipv6 o obj w)
  unfolding upsert_namespace apply
  upsert_namespace-Does w req none obj = stored w _ finished refl
  upsert_namespace-Does w req (some ns) obj =
      if-HasEffect w _ _ _
        (then_set-Does w req obj _ (deploy_for_event-Declares _ is_ipv6 w.nodes _))
        (stored w _ finished refl)

  namespace-Does :
      (w : World) (req : Request) (o : Fetched Namespace)
      → Does (namespace_event req o) w (reconcile_namespace is_ipv6 req o w)
  unfolding reconcile_namespace apply
  namespace-Does w req (got obj) = upsert_namespace-Does w req _ obj
  namespace-Does w req absent = stored w _ finished refl
  namespace-Does w req (failed e) = nothing w (error e) refl

  unless-HasEffect :
      {x : Outcome SigCache} {n : Bool} (w : World) (b : Bool) (s : Step)
      → HasEffect x n w s
      → HasEffect (if b then x else returns w.store) n w (if b then s else returns (w, requeue))
  unless-HasEffect w true s h = h
  unless-HasEffect w false s h = nothing w requeue refl

  guarded-HasEffect :
      {x : Outcome SigCache} {n : Bool} (w : World) (s : Step)
      → HasEffect x n w s
      → HasEffect (if w.store.synced_at_start then x else returns w.store) n w (guarded w s)
  guarded-HasEffect w s h = unless-HasEffect w w.store.synced_at_start s h

  -- When a reconciler returns, even with an error: the store is what the event asks for (a fetched
  -- object has been put in by the method of its kind, an object that is gone has been taken out; after
  -- another error of the API server, for a class of another controller, for a class with a namespace, and
  -- before the synchronisation for all but endpoints and services, nothing has changed); the cache of
  -- nodes is as it was unless the event is of a node; and at most one request has been put into the
  -- queue, with distinct tenants, and none if the answer is an error.
  pub reconcile-Effect :
      (ev : Event) (w w' : World) (a : Answer)
      → reconcile is_ipv6 unmarshal ev w ≡ returns (w', a)
      → Effect (expected ev w.store) (is_of_node ev) w w' a
  unfolding reconcile
  reconcile-Effect (class_event req o) w = elim (Bool-cases (req.namespace == "")) [
    | inl y ↦ rw y (guarded-HasEffect w _ (class-Does w req o))
    | inr n ↦ rw n (nothing w (error "gateway class namespace must be ''") refl)
  ]
  reconcile-Effect (gateway_event req o) w = guarded-HasEffect w _ (gateway-Does w req o)
  reconcile-Effect (route_event req o) w = guarded-HasEffect w _ (route-Does w req o)
  reconcile-Effect (grant_event req o) w = guarded-HasEffect w _ (grant-Does w req o)
  reconcile-Effect (secret_event req o) w = guarded-HasEffect w _ (secret-Does w req o)
  reconcile-Effect (endpoints_event req o) w = endpoints-Does w req o
  reconcile-Effect (service_event req o) w = service-Does w req o
  reconcile-Effect (node_event req o) w = guarded-HasEffect w _ (node-Does w req o)
  reconcile-Effect (namespace_event req o) w = guarded-HasEffect w _ (namespace-Does w req o)
