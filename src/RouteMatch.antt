-- ===== src/RouteMatch.antt =====
-- internal/pkg/utils.go: RouteMatches, whether a listener takes routes of a type from a namespace.
use bigip_kubernetes_gateway.Base.{
  String, Bool, true, false, not, ◌&&◌, Option, none, some, List, [], ◌∷◌, ◌==◌, if◌then◌else◌,
  or_default,
}
use bigip_kubernetes_gateway.Api.{
  Listener, AllowedRoutes, RouteNamespaces, RouteGroupKind, Namespace, gateway_group,
}
use bigip_kubernetes_gateway.External.{External}

-- reflect.TypeOf(gatewayapi.HTTPRoute{}).Name()
abbrev pub http_route_type : String
http_route_type = "HTTPRoute"

-- The loop over the allowed kinds: a kind of a foreign group ends it.
unfoldable pub allowed_kind : String → List RouteGroupKind → Bool
allowed_kind route_type [] = false
allowed_kind route_type (k ∷ kinds) =
    let rest = allowed_kind route_type kinds in
    if not (or_default gateway_group k.group == gateway_group)
    then false
    else if k.kind == route_type
    then true
    else rest

module _ ⦃ext : External⦄ where
  -- An error of the selector and an unknown `From` both return false.
  unfoldable pub matched_from : String → RouteNamespaces → String → Namespace → Bool
  matched_from gw_namespace namespaces from route_namespace =
      if from == "All"
      then true
      else if from == "Same"
      then gw_namespace == route_namespace.name
      else if from == "Selector"
      then or_default false (ext.selector_matches namespaces.selector route_namespace.labels)
      else false

  unfoldable pub matched_protocol : String → String → Bool
  matched_protocol protocol route_type =
      if protocol == "HTTP"
      then route_type == http_route_type
      else if protocol == "HTTPS"
      then ext.contains (http_route_type ∷ []) route_type
      else false

  unfoldable pub matched_kind : Listener → List RouteGroupKind → String → Bool
  matched_kind listener [] route_type = matched_protocol listener.protocol route_type
  matched_kind listener (k ∷ kinds) route_type = allowed_kind route_type (k ∷ kinds)

  matches_namespaces :
      String
      → Listener
      → AllowedRoutes
      → RouteNamespaces
      → Option String
      → Option Namespace
      → String
      → Bool
  matches_namespaces gw_ns l allowed namespaces none route_ns route_type = false
  matches_namespaces gw_ns l allowed namespaces (some from) none route_type = false
  matches_namespaces gw_ns l allowed namespaces (some from) (some ns) route_type =
      matched_from gw_ns namespaces from ns && matched_kind l allowed.kinds route_type

  matches_allowed :
      String → Listener → AllowedRoutes → Option RouteNamespaces → Option Namespace → String → Bool
  unfolding matches_namespaces
  matches_allowed gw_ns l allowed none route_ns route_type = false
  matches_allowed gw_ns l allowed (some namespaces) route_ns route_type =
      matches_namespaces gw_ns l allowed namespaces namespaces.from route_ns route_type

  matches_listener : String → Listener → Option AllowedRoutes → Option Namespace → String → Bool
  unfolding matches_allowed
  matches_listener gw_ns l none route_ns route_type = false
  matches_listener gw_ns l (some allowed) route_ns route_type =
      matches_allowed gw_ns l allowed allowed.namespaces route_ns route_type

  unfoldable pub route_matches : String → Option Listener → Option Namespace → String → Bool
  unfolding matches_listener
  route_matches gw_namespace none route_namespace route_type = false
  route_matches gw_namespace (some listener) route_namespace route_type =
      matches_listener gw_namespace listener listener.allowed_routes route_namespace route_type
