-- ===== src/Webhooks/Handlers.antt =====
-- internal/webhooks: the admission handlers of gateways, gateway classes, routes and reference grants.
use bigip_kubernetes_gateway.Base.{String, Bool, not, Option, none, some, [], ◌∷◌, if◌then◌else◌}
use bigip_kubernetes_gateway.Base.GoMap.{GoMap}
use bigip_kubernetes_gateway.Api.{Gateway, GatewayClass, HttpRoute, ReferenceGrant}
use bigip_kubernetes_gateway.External.{External}
use bigip_kubernetes_gateway.Webhooks.Keys.{
  is_on, vk_gateway_class_name, vk_gateway_certificate_refs, vk_httproute_parent_refs,
  vk_httproute_backend_refs,
}
use bigip_kubernetes_gateway.Webhooks.Manager.{Manager}
use bigip_kubernetes_gateway.Webhooks.Validate.{
  validate_http_route_parent_refs, validate_http_route_backend_refs,
}
use bigip_kubernetes_gateway.Webhooks.Gateways.{
  validate_listeners_tls_certificate_refs, validate_gateway_class_exists,
  validate_gateway_class_is_referred, validate_gateway_is_referred,
}

module _ ⦃ext : External⦄ (mgr : Manager) (validate_map : GoMap Bool) where
  -- A validation runs if its key is on.
  abbrev when : String → Option String → Option String
  when key err = if is_on key validate_map then err else none

  unfoldable pub gateway_validate_create : Gateway → Option String
  gateway_validate_create gw = ext.merge_errors (
      when vk_gateway_class_name (validate_gateway_class_exists mgr gw)
      ∷ when vk_gateway_certificate_refs (validate_listeners_tls_certificate_refs mgr gw)
      ∷ [])

  unfoldable pub gateway_validate_update : Gateway → Gateway → Option String
  gateway_validate_update old gw = ext.merge_errors (
      when vk_gateway_class_name (validate_gateway_class_exists mgr gw)
      ∷ when vk_gateway_certificate_refs (validate_listeners_tls_certificate_refs mgr gw)
      ∷ [])

  unfoldable pub gateway_validate_delete : Gateway → Option String
  gateway_validate_delete gw =
      if not (is_on vk_httproute_parent_refs validate_map)
      then none
      else validate_gateway_is_referred mgr (some gw)

  unfoldable pub gateway_class_validate_create : GatewayClass → Option String
  gateway_class_validate_create gwc = none

  unfoldable pub gateway_class_validate_update : GatewayClass → GatewayClass → Option String
  gateway_class_validate_update old gwc = none

  unfoldable pub gateway_class_validate_delete : GatewayClass → Option String
  gateway_class_validate_delete gwc =
      if not (is_on vk_gateway_class_name validate_map)
      then none
      else validate_gateway_class_is_referred mgr (some gwc)

  unfoldable pub http_route_validate_create : HttpRoute → Option String
  http_route_validate_create hr = ext.merge_errors (
      when vk_httproute_parent_refs (validate_http_route_parent_refs mgr hr)
      ∷ when vk_httproute_backend_refs (validate_http_route_backend_refs mgr hr)
      ∷ [])

  unfoldable pub http_route_validate_update : HttpRoute → HttpRoute → Option String
  http_route_validate_update old hr = ext.merge_errors (
      when vk_httproute_parent_refs (validate_http_route_parent_refs mgr hr)
      ∷ when vk_httproute_backend_refs (validate_http_route_backend_refs mgr hr)
      ∷ [])

  unfoldable pub http_route_validate_delete : HttpRoute → Option String
  http_route_validate_delete hr = none

  unfoldable pub reference_grant_validate : ReferenceGrant → Option String
  reference_grant_validate rg = none
