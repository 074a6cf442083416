-- ===== src/Webhooks/Gateways.antt =====
-- internal/webhooks/webhook_utils.go: the validations of gateways and gateway classes. The module is
-- built with the loop variables of Go 1.19, one for a whole loop: a pointer to it that is kept stands,
-- after the loop, for the last element.
pub mod Certificates
use bigip_kubernetes_gateway.Base.{
  String, Bool, true, not, Option, none, some, List, [], ◌∷◌, map, ◌==◌, if◌then◌else◌, or_default,
}
use bigip_kubernetes_gateway.Base.GoMap.{GoMap, insert}
use bigip_kubernetes_gateway.Base.Lists.{select}
use bigip_kubernetes_gateway.Base.Text.{join, ◌⧺◌}
use bigip_kubernetes_gateway.Api.{
  Namespace, GatewayClass, Gateway, HttpRoute, Listener, ListenerTls, SecretRef, Secret,
  ReferenceGrant,
}
use bigip_kubernetes_gateway.External.{External}
use bigip_kubernetes_gateway.Cache.Secrets.{terminates}
use bigip_kubernetes_gateway.Cache.Attached.{listener_map, attaches_by}
use bigip_kubernetes_gateway.Webhooks.Manager.{Manager, listed, refused, object_key_from_string}
use bigip_kubernetes_gateway.Webhooks.Validate.{
  Invalids, no_invalids, add_ref, add_type, verdict, validate_secret_type,
}
use bigip_kubernetes_gateway.Webhooks.Validate.Grants.{can_refer}

-- What a kept pointer to the loop variable shows for each kept element.
last_for : List String → String → List String → List String
last_for [] last kept = map (λ k. last) kept
last_for (x ∷ xs) last kept = last_for xs x kept

module _ ⦃ext : External⦄ (mgr : Manager) where
  unfoldable pub check_secret :
      List ReferenceGrant → Gateway → String → Option Secret → Invalids → Invalids
  check_secret rgs gw kn none i = add_ref ("secret '" ⧺ kn ⧺ "' not found") i
  check_secret rgs gw kn (some scrt) i =
      if not (can_refer rgs gw.meta scrt.meta)
      then add_ref ("secret '" ⧺ kn ⧺ "' not found") i
      else if not (scrt.type == "kubernetes.io/tls")
      then add_type (kn ⧺ " invalid type '" ⧺ scrt.type ⧺ "'") i
      else i

  unfoldable pub check_certificate : List ReferenceGrant → Gateway → SecretRef → Invalids → Invalids
  unfolding check_secret
  check_certificate rgs gw ref i = elim (validate_secret_type ref.group ref.kind) [
    | some err ↦ add_type err i
    | none ↦
        let kn = ext.keyname (or_default gw.namespace ref.namespace ∷ ref.name ∷ []) in
        check_secret rgs gw kn (mgr.get_secret (object_key_from_string kn)) i
  ]

  unfoldable pub check_certificates :
      List ReferenceGrant → Gateway → List SecretRef → Invalids → Invalids
  check_certificates rgs gw [] i = i
  check_certificates rgs gw (ref ∷ refs) i =
      check_certificates rgs gw refs (check_certificate rgs gw ref i)

  unfoldable pub check_tls :
      List ReferenceGrant → Gateway → String → Option ListenerTls → Invalids → Invalids
  check_tls rgs gw name none i = add_ref ("missing 'tls' in listener " ⧺ name) i
  check_tls rgs gw name (some tls) i =
      if terminates tls.mode then check_certificates rgs gw tls.certificate_refs i else i

  unfoldable pub check_listener : List ReferenceGrant → Gateway → Listener → Invalids → Invalids
  unfolding check_tls
  check_listener rgs gw ls i =
      if not (ls.protocol == "HTTPS") then i else check_tls rgs gw ls.name ls.tls i

  unfoldable pub check_listeners :
      List ReferenceGrant → Gateway → List Listener → Invalids → Invalids
  check_listeners rgs gw [] i = i
  check_listeners rgs gw (ls ∷ rest) i = check_listeners rgs gw rest (check_listener rgs gw ls i)

  unfoldable pub validate_listeners_tls_certificate_refs : Gateway → Option String
  validate_listeners_tls_certificate_refs gw = elim mgr.list_reference_grants [
    | refused err ↦ some err
    | listed rgs ↦ verdict (check_listeners rgs gw gw.listeners no_invalids)
  ]

  unfoldable pub validate_gateway_class_exists : Gateway → Option String
  validate_gateway_class_exists gw =
      elim (mgr.get_gateway_class (object_key_from_string gw.class_name)) [
        | none ↦ some ("gatewayclass '" ⧺ gw.class_name ⧺ "' not found")
        | some gwc ↦ none
      ]

  gateway_keys : List Gateway → List String
  gateway_keys gws = map (λ gw. ext.keyname (gw.namespace ∷ gw.name ∷ [])) gws

  referred_error : String → String → String → List String → Option String
  referred_error before sep after [] = none
  referred_error before sep after (k ∷ ks) = some (before ⧺ join sep (k ∷ ks) ⧺ after)

  -- The message names the last listed gateway, once for each that refers to the class.
  unfoldable pub validate_gateway_class_is_referred : Option GatewayClass → Option String
  unfolding gateway_keys last_for referred_error
  validate_gateway_class_is_referred none = none
  validate_gateway_class_is_referred (some gwc) = elim mgr.list_gateways [
    | refused err ↦ some err
    | listed gws ↦
        let kept = select (λ gw. gw.class_name == gwc.name) gws in
        referred_error "still be referred by [" ", " "]"
          (last_for (gateway_keys gws) "" (gateway_keys kept))
  ]

  -- nsmap[ns.Name] = &ns: every name of the list maps to the last namespace.
  last_namespace : Namespace → List Namespace → Namespace
  last_namespace ns [] = ns
  last_namespace ns (n ∷ nss) = last_namespace n nss

  map_to : Namespace → List Namespace → GoMap Namespace → GoMap Namespace
  map_to last [] m = m
  map_to last (ns ∷ nss) m = map_to last nss (insert ns.name last m)

  unfoldable pub namespace_map : List Namespace → GoMap Namespace
  unfolding last_namespace map_to
  namespace_map [] = []
  namespace_map (ns ∷ nss) = map_to (last_namespace ns nss) (ns ∷ nss) []

  route_keys : List HttpRoute → List String
  route_keys hrs = map (λ hr. ext.keyname (hr.namespace ∷ hr.name ∷ [])) hrs

  unfoldable pub referring_routes : Gateway → List Namespace → List HttpRoute → List HttpRoute
  referring_routes gw nss hrs =
      let listeners = listener_map gw gw.listeners [] in
      select (λ hr. attaches_by gw listeners (namespace_map nss) hr hr.parent_refs) hrs

  -- An error of the list of namespaces is no error of the validation.
  unfoldable pub validate_gateway_is_referred : Option Gateway → Option String
  unfolding route_keys last_for referred_error
  validate_gateway_is_referred none = none
  validate_gateway_is_referred (some gw) = elim mgr.list_http_routes [
    | refused err ↦ some err
    | listed hrs ↦ elim mgr.list_namespaces [
      | refused err ↦ none
      | listed nss ↦
          referred_error "still referred by " "," ""
            (last_for (route_keys hrs) "" (route_keys (referring_routes gw nss hrs)))
    ]
  ]
