-- ===== src/Controllers/Requests.antt =====
-- The request that an event of the Gateway API puts into the queue has the classes that it concerns.
use mathlib.Core.List.Memᴰ
use mathlib.Core.List.Memᴰ.{Memᴰ, head, tail}
use bigip_kubernetes_gateway.Base.{
  String, Bool, true, ◌==◌, ◌≡◌, refl, ap, inl, inr, Option, none, some, List, [], ◌∷◌, ◌++◌,
  Outcome-cases, returns,
}
use bigip_kubernetes_gateway.Base.Attempt.{Attempt, done, fails, breaks, >>=-eq-done}
use bigip_kubernetes_gateway.Base.GoMap.{GoMap, lookup}
use bigip_kubernetes_gateway.Json.{Json, object, members}
use bigip_kubernetes_gateway.Api.{Gateway, GatewayClass, HttpRoute}
use bigip_kubernetes_gateway.External.{External, IsLawful}
use bigip_kubernetes_gateway.As3.{tenant_of}
use bigip_kubernetes_gateway.Cache.{SigCache, get_gateway_class, get_gateway, get_http_route}
use bigip_kubernetes_gateway.Cache.Attached.{gateway_refs_of_hr}
use bigip_kubernetes_gateway.Deployer.{DeployRequest}
use bigip_kubernetes_gateway.Deploys.{class_configs, deploy_for_event}
use bigip_kubernetes_gateway.Deploys.Classes.{IsMade, deploy_for_event_declares}
use bigip_kubernetes_gateway.K8s.Nodes.{Unmarshalled}
use bigip_kubernetes_gateway.Controllers.{
  Request, Fetched, got, absent, failed, finished, World, Step, deploys, with_store, Event,
  class_event, gateway_event, route_event, grant_event, secret_event, endpoints_event,
  service_event, node_event, namespace_event,
}
use bigip_kubernetes_gateway.Controllers.Gateways.{
  class_names, deploy_classes, delete_gateway, upsert_gateway, reconcile_gateway, delete_class,
  upsert_class, reconcile_class, delete_route, upsert_route, reconcile_route,
}
use bigip_kubernetes_gateway.Controllers.Cores.{guarded, reconcile}
use bigip_kubernetes_gateway.Controllers.Effects.{is_wellformed}

module _ ⦃ext : External⦄ where
  -- A gateway that a route has as a parent.
  abbrev pub IsParent : Gateway → Option HttpRoute → SigCache → Type 0
  IsParent gw hr c = (gws : List Gateway) × (gateway_refs_of_hr hr c ≡ returns gws) × Memᴰ gw gws

  -- The classes that an event concerns: a class of the controller, or a cached one that is gone; the
  -- class of a gateway; and the classes of the gateways that a route has, or had, as parents.
  pub data Concerns : Event → World → String → Type 0 where
    new_class :
        {req : Request} {obj : GatewayClass} {w : World}
        → (obj.controller_name == w.store.controller_name) ≡ true
        → Concerns (class_event req (got obj)) w req.name
    old_class :
        {req : Request} {gwc : GatewayClass} {w : World}
        → get_gateway_class req.name w.store ≡ some gwc
        → Concerns (class_event req absent) w req.name
    new_gateway :
        {req : Request} {obj : Gateway} {w : World}
        → Concerns (gateway_event req (got obj)) w obj.class_name
    old_gateway :
        {req : Request} {gw : Gateway} {w : World}
        → get_gateway req.text w.store ≡ some gw
        → Concerns (gateway_event req absent) w gw.class_name
    new_parent :
        {req : Request} {obj : HttpRoute} {gw : Gateway} {w : World}
        → IsParent gw (some obj) w.store
        → Concerns (route_event req (got obj)) w gw.class_name
    left_parent :
        {req : Request} {obj : HttpRoute} {gw : Gateway} {w : World}
        → IsParent gw (get_http_route req.text w.store) w.store
        → Concerns (route_event req (got obj)) w gw.class_name
    old_parent :
        {req : Request} {gw : Gateway} {w : World}
        → IsParent gw (get_http_route req.text w.store) w.store
        → Concerns (route_event req absent) w gw.class_name

module _ ⦃ext : External⦄ (is_ipv6 : String → Bool) where
  -- One request has been put into the queue, and it has the class as a tenant, with the folders that
  -- the store after the event is parsed to, for some classes of which it is one.
  abbrev pub IsQueued : String → World → World → Type 0
  IsQueued k w w' =
      (r : DeployRequest) × (w'.deployer.pending ≡ w.deployer.pending ++ r ∷ [])
      × ((classes : List String) × Memᴰ k classes
          × (folders : GoMap (GoMap Json)) × IsMade w'.store is_ipv6 w'.nodes classes k folders
          × (lookup k r.declaration ≡ some (object (members (tenant_of folders)))))

module _ ⦃ext : External⦄ (lawful : IsLawful ext) (is_ipv6 : String → Bool) where
  -- A step that deploys some classes, and what it returns.
  abbrev Queues : String → World → Step → Type 0
  Queues k w s = (w' : World) → s ≡ returns (w', finished) → IsQueued is_ipv6 k w w'

  deployed :
      (k : String) (w : World) (c : SigCache) (cls : List String)
      → Memᴰ k cls
      → (m : Attempt (Option DeployRequest)) → deploy_for_event c is_ipv6 w.nodes cls ≡ m
      → Queues k w (deploys (with_store c w) m)
  unfolding deploy_for_event
  deployed k w c [] i m d w' e = absurd (Memᴰ.not-nil i)
  deployed k w c (n ∷ ns) i (done none) d w' e =
      let (cfgs, f, g) = >>=-eq-done (class_configs c is_ipv6 w.nodes (n ∷ ns)) _ d in cc g
  deployed k w c (n ∷ ns) i (done (some r)) d w' e =
      let (folders, made, found, t) =
        deploy_for_event_declares c is_ipv6 w.nodes (n ∷ ns) k r i d in
      let v : World = record (with_store c w) {
        deployer = record w.deployer { pending = w.deployer.pending ++ r ∷ [] };
      } in
      let same : v ≡ w' = cc in rw (← same) (r, refl, (n ∷ ns, i, folders, made, found))
  deployed k w c cls i (fails err) d w' e = cc e
  deployed k w c cls i breaks d w' e = cc e

  deploy_classes-Queues :
      (k : String) (w : World) (c : SigCache) (cls : List String)
      → Memᴰ k cls
      → Queues k w (deploy_classes is_ipv6 (with_store c w) cls)
  deploy_classes-Queues k w c cls i = deployed k w c cls i _ refl

  unified-Mem : (k : String) (l : List String) → Memᴰ k l → Memᴰ k (ext.unified l)
  unified-Mem k l i = (lawful.unified-mem l k).1 i

  Mem-class_names :
      (gw : Gateway) (gws : List Gateway) → Memᴰ gw gws → Memᴰ gw.class_name (class_names gws)
  Mem-class_names gw [] i = absurd (Memᴰ.not-nil i)
  Mem-class_names gw (g ∷ gws) i = elim (Memᴰ.cases_cons i) [
    | inl same ↦ head (ap (λ g. g.class_name) same)
    | inr j ↦ tail (Mem-class_names gw gws j)
  ]

  route-Queues :
      (k : String) (req : Request) (o : Fetched HttpRoute) (w : World)
      → Concerns (route_event req o) w k
      → Queues k w (reconcile_route is_ipv6 req o w)
  unfolding reconcile_route upsert_route delete_route
  route-Queues _ req (got obj) w (new_parent {gw} (gws, e, i)) =
      elim (Outcome-cases (gateway_refs_of_hr (get_http_route req.text w.store) w.store)) [
        | inl broken ↦ rw broken (λ w' eq. cc eq)
        | inr (ogws, old) ↦
            rw (old, e)
              (deploy_classes-Queues _ w _ _
                (unified-Mem _ _ (Mem-class_names gw (ogws ++ gws) (Memᴰ.append_right ogws i))))
      ]
  route-Queues _ req (got obj) w (left_parent {gw} (gws, e, i)) =
      elim (Outcome-cases (gateway_refs_of_hr (some obj) w.store)) [
        | inl broken ↦ rw (e, broken) (λ w' eq. cc eq)
        | inr (ngws, new) ↦
            rw (e, new)
              (deploy_classes-Queues _ w _ _
                (unified-Mem _ _ (Mem-class_names gw (gws ++ ngws) (Memᴰ.append_left ngws i))))
      ]
  route-Queues _ req absent w (old_parent {gw} (gws, e, i)) =
      rw e (deploy_classes-Queues _ w _ _ (Mem-class_names gw gws i))
  route-Queues k req (failed err) w x = elim x [ ]

  gateway-Queues :
      (k : String) (req : Request) (o : Fetched Gateway) (w : World)
      → Concerns (gateway_event req o) w k
      → Queues k w (reconcile_gateway is_ipv6 req o w)
  unfolding reconcile_gateway upsert_gateway delete_gateway
  gateway-Queues _ req (got obj) w new_gateway =
      deploy_classes-Queues _ w _ _ (unified-Mem _ _ (head refl))
  gateway-Queues _ req absent w (old_gateway e) = rw e (deploy_classes-Queues _ w _ _ (head refl))
  gateway-Queues k req (failed err) w x = elim x [ ]

  class-Queues :
      (k : String) (req : Request) (o : Fetched GatewayClass) (w : World)
      → Concerns (class_event req o) w k
      → Queues k w (reconcile_class is_ipv6 req o w)
  unfolding reconcile_class upsert_class delete_class
  class-Queues _ req (got obj) w (new_class e) = rw e (deploy_classes-Queues _ w _ _ (head refl))
  class-Queues _ req absent w (old_class e) = rw e (deploy_classes-Queues _ w _ _ (head refl))
  class-Queues k req (failed err) w x = elim x [ ]

  through_guard :
      (k : String) (w : World) (s : Step)
      → w.store.synced_at_start ≡ true
      → Queues k w s
      → Queues k w (guarded w s)
  through_guard k w s h q w' e = q w' (rw h at e)

  -- After the synchronisation, on a well-formed request for a class, a gateway or a route: when the
  -- reconciler returns without an error, it has put one request into the queue, and each class that the
  -- event concerns is a tenant of it, with the folders that the store after the event is parsed to, for
  -- some classes of which it is one.
  pub reconcile-IsQueued :
      (unmarshal : String → Unmarshalled) (ev : Event) (k : String) (w w' : World)
      → w.store.synced_at_start ≡ true
      → is_wellformed ev ≡ true
      → Concerns ev w k
      → reconcile is_ipv6 unmarshal ev w ≡ returns (w', finished)
      → IsQueued is_ipv6 k w w'
  unfolding reconcile
  reconcile-IsQueued unmarshal (class_event req o) k w w' h f x e =
      through_guard k w _ h (class-Queues k req o w x) w' (rw f at e)
  reconcile-IsQueued unmarshal (gateway_event req o) k w w' h f x e =
      through_guard k w _ h (gateway-Queues k req o w x) w' e
  reconcile-IsQueued unmarshal (route_event req o) k w w' h f x e =
      through_guard k w _ h (route-Queues k req o w x) w' e
  reconcile-IsQueued unmarshal (grant_event req o) k w w' h f x e = elim x [ ]
  reconcile-IsQueued unmarshal (secret_event req o) k w w' h f x e = elim x [ ]
  reconcile-IsQueued unmarshal (endpoints_event req o) k w w' h f x e = elim x [ ]
  reconcile-IsQueued unmarshal (service_event req o) k w w' h f x e = elim x [ ]
  reconcile-IsQueued unmarshal (node_event req o) k w w' h f x e = elim x [ ]
  reconcile-IsQueued unmarshal (namespace_event req o) k w w' h f x e = elim x [ ]
