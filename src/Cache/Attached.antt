-- ===== src/Cache/Attached.antt =====
-- internal/pkg/cache.go: which gateways, routes and services are attached to one another. A pointer
-- that the code follows without a test for nil panics when it is nil.
pub mod Sections
pub mod ObjectKeys
pub mod Consistent
mod Tests
use bigip_kubernetes_gateway.Base.{
  String, Bool, true, false, not, ◌&&◌, Option, none, some, List, [], ◌∷◌, ◌++◌, ◌==◌,
  if◌then◌else◌, or_default, Outcome, returns, panics, ◌>>=◌, map,
}
use bigip_kubernetes_gateway.Base.Lists.{select}
use bigip_kubernetes_gateway.Base.GoMap.{GoMap, lookup, insert, values}
use bigip_kubernetes_gateway.Api.{
  Namespace, Gateway, GatewayClass, HttpRoute, Listener, ParentRef, Service, BackendRef, RouteRule,
  RouteFilter, ExtensionRef,
}
use bigip_kubernetes_gateway.External.{External}
use bigip_kubernetes_gateway.Names.{gw_listener_name, hr_parent_name}
use bigip_kubernetes_gateway.RouteMatch.{route_matches, http_route_type}
use bigip_kubernetes_gateway.Cache.{SigCache, object_key}
use bigip_kubernetes_gateway.Cache.Refer.{can_refer}

unfoldable pub attached_gateways : Option GatewayClass → SigCache → List Gateway
attached_gateways none c = []
attached_gateways (some gwc) c = select (λ gw. gw.class_name == gwc.name) (values c.gateway)

-- The loop over a gateway's listeners: the first that has the section's name and takes the route.
module _ ⦃ext : External⦄ (c : SigCache) (hr : HttpRoute) where
  unfoldable pub scan_section : Gateway → String → List Listener → Bool
  scan_section gw sn [] = false
  scan_section gw sn (listener ∷ ls) =
      let rest = scan_section gw sn ls in
      if not (listener.name == sn)
      then rest
      else if route_matches gw.namespace (some listener) (lookup hr.namespace c.namespace)
          http_route_type
      then true
      else rest

  -- `*pr.SectionName` is read for each listener.
  unfoldable pub scan_listeners : Gateway → Option String → List Listener → Outcome Bool
  scan_listeners gw sn [] = returns false
  scan_listeners gw none (listener ∷ ls) = panics
  scan_listeners gw (some sn) (listener ∷ ls) = returns (scan_section gw sn (listener ∷ ls))

  -- The gateway that a parent reference stands for, if the store has it and a listener takes the route.
  unfoldable pub ref_found : ParentRef → Option Gateway → Outcome (List Gateway)
  ref_found pr none = returns []
  ref_found pr (some gw) = do
    found ← scan_listeners gw pr.section_name gw.listeners
    returns (if found then gw ∷ [] else [])

  unfoldable pub ref_key : ParentRef → String
  ref_key pr = ext.keyname (object_key (or_default hr.namespace pr.namespace) pr.name ∷ [])

  unfoldable pub gateway_refs : List ParentRef → Outcome (List Gateway)
  gateway_refs [] = returns []
  gateway_refs (pr ∷ prs) = do
    gws ← ref_found pr (lookup (ref_key pr) c.gateway)
    rest ← gateway_refs prs
    returns (gws ++ rest)

module _ ⦃ext : External⦄ where
  unfoldable pub gateway_refs_of_hr : Option HttpRoute → SigCache → Outcome (List Gateway)
  gateway_refs_of_hr none c = returns []
  gateway_refs_of_hr (some hr) c = gateway_refs c hr hr.parent_refs

  unfoldable pub listener_map : Gateway → List Listener → GoMap Listener → GoMap Listener
  listener_map gw [] m = m
  listener_map gw (ls ∷ rest) m = listener_map gw rest (insert (gw_listener_name gw ls) ls m)

  -- The loop over a route's parents, up to the first that attaches it.
  unfoldable pub attaches_by :
      Gateway → GoMap Listener → GoMap Namespace → HttpRoute → List ParentRef → Bool
  attaches_by gw listeners namespaces hr [] = false
  attaches_by gw listeners namespaces hr (pr ∷ prs) =
      let rest = attaches_by gw listeners namespaces hr prs in
      let ns = or_default hr.namespace pr.namespace in
      if object_key ns pr.name == object_key gw.namespace gw.name
        && route_matches gw.namespace (lookup (hr_parent_name hr pr) listeners)
            (lookup hr.namespace namespaces) http_route_type
      then true
      else rest

  unfoldable pub attached_http_routes : Option Gateway → SigCache → List HttpRoute
  attached_http_routes none c = []
  attached_http_routes (some gw) c =
      let listeners = listener_map gw gw.listeners [] in
      select (λ hr. attaches_by gw listeners c.namespace hr hr.parent_refs) (values c.http_route)

  -- A service of the store that the route may refer to.
  unfoldable pub referred_service : HttpRoute → SigCache → Option Service → List Service
  referred_service hr c none = []
  referred_service hr c (some svc) = if can_refer hr.meta svc.meta c then svc ∷ [] else []

  unfoldable pub backend_services : HttpRoute → SigCache → List BackendRef → List Service
  backend_services hr c [] = []
  backend_services hr c (br ∷ brs) =
      let ns = or_default hr.namespace br.namespace in
      referred_service hr c (lookup (object_key ns br.name) c.service) ++ backend_services hr c brs

  unfoldable pub extension_service :
      HttpRoute → SigCache → String → Option ExtensionRef → List Service
  extension_service hr c type none = []
  extension_service hr c type (some er) =
      if type == "ExtensionRef" && (er.group == "" && er.kind == "Service")
      then referred_service hr c (lookup (object_key hr.namespace er.name) c.service)
      else []

  unfoldable pub filter_services : HttpRoute → SigCache → List RouteFilter → List Service
  filter_services hr c [] = []
  filter_services hr c (fl ∷ fls) =
      extension_service hr c fl.type fl.extension_ref ++ filter_services hr c fls

  unfoldable pub all_backends : HttpRoute → SigCache → List RouteRule → List Service
  all_backends hr c [] = []
  all_backends hr c (rl ∷ rls) = backend_services hr c rl.backend_refs ++ all_backends hr c rls

  unfoldable pub all_filters : HttpRoute → SigCache → List RouteRule → List Service
  all_filters hr c [] = []
  all_filters hr c (rl ∷ rls) = filter_services hr c rl.filters ++ all_filters hr c rls

  unfoldable pub attached_services : Option HttpRoute → SigCache → List Service
  attached_services none c = []
  attached_services (some hr) c = all_backends hr c hr.rules ++ all_filters hr c hr.rules

  services_of_routes : SigCache → List HttpRoute → List Service
  services_of_routes c [] = []
  services_of_routes c (hr ∷ hrs) = attached_services (some hr) c ++ services_of_routes c hrs

  services_of_gateways : SigCache → List Gateway → List Service
  unfolding services_of_routes
  services_of_gateways c [] = []
  services_of_gateways c (gw ∷ gws) =
      services_of_routes c (attached_http_routes (some gw) c) ++ services_of_gateways c gws

  unfoldable pub related_services : Option GatewayClass → SigCache → List Service
  unfolding services_of_gateways
  related_services gwc c = services_of_gateways c (attached_gateways gwc c)

  -- The routes that a service serves: `hrs = append(hrs, c.HTTPRoute[hrk])` appends what the map has.
  serves : Service → SigCache → HttpRoute → Bool
  serves svc c hr =
      ext.contains (map (λ s. object_key s.namespace s.name) (attached_services (some hr) c))
        (object_key svc.namespace svc.name)

  unfoldable pub http_routes_refs_of : Option Service → SigCache → List (Option HttpRoute)
  unfolding serves
  http_routes_refs_of none c = []
  http_routes_refs_of (some svc) c =
      let hr_keys =
        map (λ hr. object_key hr.namespace hr.name) (select (serves svc c) (values c.http_route)) in
      map (λ k. lookup k c.http_route) (ext.unified hr_keys)
