-- ===== src/Webhooks/Validate.antt =====
-- internal/webhooks/webhook_utils.go: the validations. An error stands by its text.
pub mod Grants
pub mod Format
pub mod Checks
pub mod Messages
pub mod Backends
pub mod Parents
use bigip_kubernetes_gateway.Base.{
  String, Bool, true, false, not, ◌&&◌, ◌||◌, Option, none, some, List, [], ◌∷◌, ◌++◌, map, ◌==◌,
  if◌then◌else◌, or_default,
}
use bigip_kubernetes_gateway.Base.GoMap.{GoMap, lookup, insert}
use bigip_kubernetes_gateway.Base.Lists.{select}
use bigip_kubernetes_gateway.Base.Text.{join, ◌⧺◌}
use bigip_kubernetes_gateway.Api.{
  Object, Namespace, GatewayClass, Gateway, HttpRoute, Listener, ListenerTls, SecretRef, Service,
  Secret, ParentRef, BackendRef, RouteRule, RouteFilter, ExtensionRef, ReferenceGrant, core_group,
  gateway_group,
}
use bigip_kubernetes_gateway.External.{External}
use bigip_kubernetes_gateway.RouteMatch.{route_matches, http_route_type}
use bigip_kubernetes_gateway.Webhooks.Manager.{
  Manager, Listing, listed, refused, object_key_from_string,
}
use Grants.{can_refer}
use Format.{fmt_invalids}

-- What a validation has found so far: invalid references, then invalid types.
pub record Invalids : Type 0 where
  pub refs : List String
  pub types : List String

abbrev pub no_invalids : Invalids
no_invalids = record { refs = []; types = [] }

abbrev pub add_ref : String → Invalids → Invalids
add_ref msg i = record i { refs = i.refs ++ msg ∷ [] }

abbrev pub add_type : String → Invalids → Invalids
add_type msg i = record i { types = i.types ++ msg ∷ [] }

abbrev pub verdict : Invalids → Option String
verdict i = fmt_invalids i.refs (i.types ∷ [])

module _ ⦃ext : External⦄ where
  -- validateServiceType, validateSecretType and validateGatewayType, up to the expected type.
  type_error : String → String → String → String → Option String
  type_error group kind g k =
      if not (g == group) || not (k == kind)
      then some ("not " ⧺ kind ⧺ " type: '" ⧺ ext.keyname (g ∷ k ∷ []) ⧺ "'")
      else none

  unfoldable pub validate_service_type : Option String → Option String → Option String
  unfolding type_error
  validate_service_type group kind =
      type_error core_group "Service" (or_default core_group group) (or_default "Service" kind)

  unfoldable pub validate_secret_type : Option String → Option String → Option String
  unfolding type_error
  validate_secret_type group kind =
      type_error core_group "Secret" (or_default core_group group) (or_default "Secret" kind)

  unfoldable pub validate_gateway_type : Option String → Option String → Option String
  unfolding type_error
  validate_gateway_type group kind =
      type_error gateway_group "Gateway" (or_default gateway_group group)
        (or_default "Gateway" kind)

module _ ⦃ext : External⦄ (mgr : Manager) where
  -- The body of the loop over the backends of a route.
  unfoldable pub check_backend : List ReferenceGrant → HttpRoute → BackendRef → Invalids → Invalids
  check_backend rgs hr br i = elim (validate_service_type br.group br.kind) [
    | some err ↦ add_type err i
    | none ↦
        let svckey = ext.keyname (or_default hr.namespace br.namespace ∷ br.name ∷ []) in
        let missing = add_ref ("no backRef found: '" ⧺ svckey ⧺ "'") i in
        elim (mgr.get_service (object_key_from_string svckey)) [
          | none ↦ missing
          | some svc ↦ if can_refer rgs hr.meta svc.meta then i else missing
        ]
  ]

  unfoldable pub check_backends :
      List ReferenceGrant → HttpRoute → List BackendRef → Invalids → Invalids
  check_backends rgs hr [] i = i
  check_backends rgs hr (br ∷ brs) i = check_backends rgs hr brs (check_backend rgs hr br i)

  unfoldable pub check_extension : HttpRoute → String → Option ExtensionRef → Invalids → Invalids
  check_extension hr type none i = i
  check_extension hr type (some er) i =
      if not (type == "ExtensionRef")
      then i
      else elim (validate_service_type (some er.group) (some er.kind)) [
        | some err ↦ add_type err i
        | none ↦
            let svckey = ext.keyname (hr.namespace ∷ er.name ∷ []) in
            elim (mgr.get_service (object_key_from_string svckey)) [
              | none ↦ add_ref ("no backRef found: '" ⧺ svckey ⧺ "'") i
              | some svc ↦ i
            ]
      ]

  unfoldable pub check_filters : HttpRoute → List RouteFilter → Invalids → Invalids
  check_filters hr [] i = i
  check_filters hr (fl ∷ fls) i =
      check_filters hr fls (check_extension hr fl.type fl.extension_ref i)

  unfoldable pub check_rule_backends :
      List ReferenceGrant → HttpRoute → List RouteRule → Invalids → Invalids
  check_rule_backends rgs hr [] i = i
  check_rule_backends rgs hr (rl ∷ rls) i =
      check_rule_backends rgs hr rls (check_backends rgs hr rl.backend_refs i)

  unfoldable pub check_rule_filters : HttpRoute → List RouteRule → Invalids → Invalids
  check_rule_filters hr [] i = i
  check_rule_filters hr (rl ∷ rls) i = check_rule_filters hr rls (check_filters hr rl.filters i)

  unfoldable pub validate_http_route_backend_refs : HttpRoute → Option String
  validate_http_route_backend_refs hr = elim mgr.list_reference_grants [
    | refused err ↦ some err
    | listed rgs ↦
        verdict (check_rule_filters hr hr.rules (check_rule_backends rgs hr hr.rules no_invalids))
  ]

  -- The namespace of the route is read for each listener that has the section's name.
  unfoldable pub check_section_listener :
      HttpRoute → Gateway → String → Listener → Invalids → Invalids
  check_section_listener hr gw sn ls i =
      let invalid =
        add_ref ("invalid reference to " ⧺ ext.keyname (gw.namespace ∷ gw.name ∷ ls.name ∷ [])) i in
      if not (ls.name == sn)
      then i
      else elim (mgr.get_namespace (object_key_from_string hr.namespace)) [
        | none ↦ invalid
        | some n ↦
            if route_matches gw.namespace (some ls) (some n) http_route_type then i else invalid
      ]

  unfoldable pub check_section : HttpRoute → Gateway → String → List Listener → Invalids → Invalids
  check_section hr gw sn [] i = i
  check_section hr gw sn (ls ∷ rest) i =
      check_section hr gw sn rest (check_section_listener hr gw sn ls i)

  check_named_parent : HttpRoute → ParentRef → String → String → Invalids → Invalids
  check_named_parent hr pr gwkey sn i = elim (validate_gateway_type pr.group pr.kind) [
    | some err ↦ add_type err i
    | none ↦ elim (mgr.get_gateway (object_key_from_string gwkey)) [
      | none ↦ add_ref ("no gateway '" ⧺ gwkey ⧺ "' found") i
      | some gw ↦ check_section hr gw sn gw.listeners i
    ]
  ]

  unfoldable pub check_parent : HttpRoute → ParentRef → Invalids → Invalids
  unfolding check_named_parent
  check_parent hr pr i =
      let gwkey = ext.keyname (or_default hr.namespace pr.namespace ∷ pr.name ∷ []) in
      elim pr.section_name [
        | none ↦ add_ref ("sectionName not set for '" ⧺ gwkey ⧺ "'") i
        | some sn ↦ check_named_parent hr pr gwkey sn i
      ]

  unfoldable pub check_parents : HttpRoute → List ParentRef → Invalids → Invalids
  check_parents hr [] i = i
  check_parents hr (pr ∷ prs) i = check_parents hr prs (check_parent hr pr i)

  unfoldable pub validate_http_route_parent_refs : HttpRoute → Option String
  validate_http_route_parent_refs hr = verdict (check_parents hr hr.parent_refs no_invalids)
