-- ===== src/Cache/Impact.antt =====
-- internal/pkg/cache.go: what a change of a reference grant, a namespace or a service concerns.
pub mod Laws
use bigip_kubernetes_gateway.Base.{
  String, ◌==◌, ◌&&◌, Option, none, some, List, [], ◌∷◌, ◌++◌, map, if◌then◌else◌, or_default,
  Outcome, returns, panics, ◌>>=◌,
}
use bigip_kubernetes_gateway.Base.Lists.{select}
use bigip_kubernetes_gateway.Base.GoMap.{GoMap, lookup, insert, delete, values}
use bigip_kubernetes_gateway.Api.{
  Namespace, Gateway, HttpRoute, ParentRef, Service, GrantFrom, ReferenceGrant, gateway_group,
}
use bigip_kubernetes_gateway.External.{External}
use bigip_kubernetes_gateway.Names.{unified_gateways, class_names_of_gateways}
use bigip_kubernetes_gateway.Cache.{SigCache, object_key}
use bigip_kubernetes_gateway.Cache.Attached.{
  ref_key, gateway_refs_of_hr, attached_http_routes, http_routes_refs_of,
}

module _ ⦃ext : External⦄ where
  -- The classes of the gateways that a route's parents name.
  unfoldable pub class_of : Option Gateway → List String
  class_of none = []
  class_of (some gw) = gw.class_name ∷ []

  unfoldable pub parent_classes : SigCache → HttpRoute → List ParentRef → List String
  parent_classes c hr [] = []
  parent_classes c hr (pr ∷ prs) =
      class_of (lookup (ref_key c hr pr) c.gateway) ++ parent_classes c hr prs

  unfoldable pub route_classes : SigCache → String → List HttpRoute → List String
  route_classes c ns [] = []
  route_classes c ns (hr ∷ hrs) =
      let rest = route_classes c ns hrs in
      if hr.namespace == ns then parent_classes c hr hr.parent_refs ++ rest else rest

  unfoldable pub ns_impacted_gateway_classes : Option Namespace → SigCache → List String
  ns_impacted_gateway_classes none c = []
  ns_impacted_gateway_classes (some ns) c =
      ext.unified (route_classes c ns.name (values c.http_route))

  impacted_gateways : SigCache → List GrantFrom → List Gateway
  impacted_gateways c [] = []
  impacted_gateways c (f ∷ fs) =
      let rest = impacted_gateways c fs in
      if f.group == gateway_group && f.kind == "Gateway"
      then select (λ gw. gw.namespace == f.namespace) (values c.gateway) ++ rest
      else rest

  unfoldable pub rg_impacted_gateways : Option ReferenceGrant → SigCache → List Gateway
  unfolding impacted_gateways
  rg_impacted_gateways none c = []
  rg_impacted_gateways (some rg) c = impacted_gateways c rg.from

  impacted_http_routes : SigCache → List GrantFrom → List HttpRoute
  impacted_http_routes c [] = []
  impacted_http_routes c (f ∷ fs) =
      let rest = impacted_http_routes c fs in
      if f.group == gateway_group && f.kind == "HTTPRoute"
      then select (λ hr. hr.namespace == f.namespace) (values c.http_route) ++ rest
      else rest

  unfoldable pub rg_impacted_http_routes : Option ReferenceGrant → SigCache → List HttpRoute
  unfolding impacted_http_routes
  rg_impacted_http_routes none c = []
  rg_impacted_http_routes (some rg) c = impacted_http_routes c rg.from

  -- The loop that appends the gateways of each route.
  unfoldable pub refs_of_routes : SigCache → List (Option HttpRoute) → Outcome (List Gateway)
  refs_of_routes c [] = returns []
  refs_of_routes c (hr ∷ hrs) = do
    gws ← gateway_refs_of_hr hr c
    rest ← refs_of_routes c hrs
    returns (gws ++ rest)

  unfoldable pub rg_impacted_gateway_classes :
      Option ReferenceGrant → SigCache → Outcome (List String)
  rg_impacted_gateway_classes rg c = do
    gws ← refs_of_routes c (map some (rg_impacted_http_routes rg c))
    returns (class_names_of_gateways (unified_gateways (rg_impacted_gateways rg c ++ gws)))

  -- gwmap[kn] = ng for each gateway that is not in the map yet.
  unfoldable pub add_new : List Gateway → GoMap Gateway → GoMap Gateway
  add_new [] m = m
  add_new (gw ∷ gws) m = elim (lookup (object_key gw.namespace gw.name) m) [
    | none ↦ add_new gws (insert (object_key gw.namespace gw.name) gw m)
    | some g ↦ add_new gws m
  ]

  unfoldable pub get_neighbor_gateways : Option Gateway → SigCache → Outcome (List Gateway)
  get_neighbor_gateways none c = panics
  get_neighbor_gateways (some gw) c = do
    gws ← refs_of_routes c (map some (attached_http_routes (some gw) c))
    returns (values (delete (object_key gw.namespace gw.name) (add_new gws [])))

  unfoldable pub add_all : List Gateway → GoMap Gateway → GoMap Gateway
  add_all [] m = m
  add_all (gw ∷ gws) m = add_all gws (insert (object_key gw.namespace gw.name) gw m)

  unfoldable pub root_map : SigCache → List Service → GoMap Gateway → Outcome (GoMap Gateway)
  root_map c [] m = returns m
  root_map c (svc ∷ svcs) m = do
    gws ← refs_of_routes c (http_routes_refs_of (some svc) c)
    root_map c svcs (add_all gws m)

  unfoldable pub get_root_gateways : List Service → SigCache → Outcome (List Gateway)
  get_root_gateways svcs c = do m ← root_map c svcs []; returns (values m)
