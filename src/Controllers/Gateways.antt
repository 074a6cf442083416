-- ===== src/Controllers/Gateways.antt =====
-- internal/controllers/gateway_controller.go, gatewayclass_controller.go, httproute_controller.go and
-- referencegrant_controller.go: the resources of the Gateway API. Each function takes the state that
-- the guard on SyncedAtStart lets through, and the guard stands in `reconcile`.
use bigip_kubernetes_gateway.Base.{
  String, Bool, not, ◌==◌, if◌then◌else◌, Option, none, some, List, [], ◌∷◌, ◌++◌, map, returns,
  panics, ◌>>=◌,
}
use bigip_kubernetes_gateway.Api.{GatewayClass, Gateway, HttpRoute, ReferenceGrant}
use bigip_kubernetes_gateway.External.{External}
use bigip_kubernetes_gateway.Cache.{
  get_gateway, set_gateway, unset_gateway, get_gateway_class, set_gateway_class,
  unset_gateway_class, get_http_route, set_http_route, unset_http_route, get_reference_grant,
  set_reference_grant, unset_reference_grant,
}
use bigip_kubernetes_gateway.Cache.Attached.{gateway_refs_of_hr}
use bigip_kubernetes_gateway.Cache.Impact.{rg_impacted_gateway_classes}
use bigip_kubernetes_gateway.Deploys.{deploy_for_event}
use bigip_kubernetes_gateway.Controllers.{
  Request, Fetched, got, absent, failed, finished, error, World, Step, deploys, with_store,
}

-- The classes that a loop over gateways appends.
abbrev pub class_names : List Gateway → List String
class_names gws = map (λ gw. gw.class_name) gws

abbrev pub class_of_found : Option Gateway → List String
class_of_found none = []
class_of_found (some gw) = gw.class_name ∷ []

-- An error of DeployForEvent is answered with nil.
abbrev pub swallowed : Step → Step
swallowed (returns (w, a)) = returns (w, finished)
swallowed panics = panics

module _ ⦃ext : External⦄ (is_ipv6 : String → Bool) where
  -- DeployForEvent, on the state as it is.
  abbrev pub deploy_classes : World → List String → Step
  deploy_classes w cls = deploys w (deploy_for_event w.store is_ipv6 w.nodes cls)

  -- The class of a gateway that is deleted is read from a pointer that may be nil.
  unfoldable pub delete_gateway : String → Option Gateway → World → Step
  delete_gateway key none w = panics
  delete_gateway key (some gw) w =
      deploy_classes (with_store (unset_gateway key w.store) w) (gw.class_name ∷ [])

  unfoldable pub upsert_gateway : String → Gateway → World → Step
  upsert_gateway key obj w =
      let w' = with_store (set_gateway (some obj) w.store) w in
      deploy_classes w' (ext.unified (obj.class_name ∷ class_of_found (get_gateway key w'.store)))

  unfoldable pub reconcile_gateway : Request → Fetched Gateway → World → Step
  reconcile_gateway req (got obj) w = upsert_gateway req.text obj w
  reconcile_gateway req absent w = delete_gateway req.text (get_gateway req.text w.store) w
  reconcile_gateway req (failed e) w = returns (w, error e)

  unfoldable pub delete_class : String → Option GatewayClass → World → Step
  delete_class n none w = returns (w, finished)
  delete_class n (some gwc) w =
      deploy_classes (with_store (unset_gateway_class n w.store) w) (n ∷ [])

  -- A class of another controller is ignored.
  unfoldable pub upsert_class : String → GatewayClass → World → Step
  upsert_class n obj w =
      if not (obj.controller_name == w.store.controller_name)
      then returns (w, finished)
      else deploy_classes (with_store (set_gateway_class (some obj) w.store) w) (n ∷ [])

  unfoldable pub reconcile_class : Request → Fetched GatewayClass → World → Step
  reconcile_class req (got obj) w = upsert_class req.name obj w
  reconcile_class req absent w = delete_class req.name (get_gateway_class req.name w.store) w
  reconcile_class req (failed e) w = returns (w, error e)

  unfoldable pub delete_route : String → World → Step
  delete_route key w = do
    gws ← gateway_refs_of_hr (get_http_route key w.store) w.store
    deploy_classes (with_store (unset_http_route key w.store) w) (class_names gws)

  unfoldable pub upsert_route : String → HttpRoute → World → Step
  upsert_route key nhr w = do
    ogws ← gateway_refs_of_hr (get_http_route key w.store) w.store
    ngws ← gateway_refs_of_hr (some nhr) w.store
    deploy_classes (with_store (set_http_route (some nhr) w.store) w)
        (ext.unified (class_names (ogws ++ ngws)))

  unfoldable pub reconcile_route : Request → Fetched HttpRoute → World → Step
  reconcile_route req (got obj) w = upsert_route req.text obj w
  reconcile_route req absent w = delete_route req.text w
  reconcile_route req (failed e) w = returns (w, error e)

  unfoldable pub delete_grant : String → World → Step
  delete_grant key w = do
    cls ← rg_impacted_gateway_classes (get_reference_grant key w.store) w.store
    deploy_classes (with_store (unset_reference_grant key w.store) w) cls

  unfoldable pub upsert_grant : String → ReferenceGrant → World → Step
  upsert_grant key nrg w = do
    ocls ← rg_impacted_gateway_classes (get_reference_grant key w.store) w.store
    ncls ← rg_impacted_gateway_classes (some nrg) w.store
    swallowed (
        deploy_classes (with_store (set_reference_grant (some nrg) w.store) w)
          (ext.unified (ocls ++ ncls)))

  unfoldable pub reconcile_grant : Request → Fetched ReferenceGrant → World → Step
  reconcile_grant req (got obj) w = upsert_grant req.text obj w
  reconcile_grant req absent w = delete_grant req.text w
  reconcile_grant req (failed e) w = returns (w, error e)
