-- ===== src/Parser/Gateways.antt =====
-- internal/pkg/parser.go: parseGateway and parseSecrets, the resources of a gateway.
use bigip_kubernetes_gateway.Base.{
  ℕ, ◌+◌, String, Bool, Option, none, some, List, [], ◌∷◌, ◌++◌, map, ◌==◌, ◌||◌, if◌then◌else◌,
  or_default,
}
use bigip_kubernetes_gateway.Base.Attempt.{Attempt, done, fails, breaks, ◌>>=◌, decimal}
use bigip_kubernetes_gateway.Base.GoMap.{GoMap, lookup, insert}
use bigip_kubernetes_gateway.Base.Text.{◌⧺◌}
use bigip_kubernetes_gateway.Json.{Json, text, number, array, object, members, items}
use bigip_kubernetes_gateway.Api.{Gateway, GatewayAddress, HttpRoute, Listener, ParentRef, Secret}
use bigip_kubernetes_gateway.External.{External}
use bigip_kubernetes_gateway.Names.{gw_listener_name, hr_name, hr_parent_name, tls_name}
use bigip_kubernetes_gateway.RouteMatch.{route_matches, http_route_type}
use bigip_kubernetes_gateway.Cache.{SigCache, get_namespace}
use bigip_kubernetes_gateway.Cache.Attached.{listener_map, attached_http_routes}
use bigip_kubernetes_gateway.Cache.Secrets.{attached_secrets}

-- The names of the iRules of each listener.
abbrev pub RuleNames : Type 0
RuleNames = GoMap (List String)

-- irules[k]: a missing key gives a nil slice, in JSON null; here it is the empty list, as a slice without
-- elements.
abbrev pub rules_at : String → RuleNames → List String
rules_at k irules = or_default [] (lookup k irules)

abbrev pub host_rule : String → String
host_rule hostname =
    "\n\t\t\t\t\t\twhen HTTP_REQUEST {\n\t\t\t\t\t\t\tif { not ([HTTP::host] matches \"" ⧺ hostname
    ⧺ "\") } {\n\t\t\t\t\t\t\t\tevent HTTP_REQUEST disable\n\t\t\t\t\t\t\t}\n\t\t\t\t\t\t}\n\t\t\t\t\t"

module _ ⦃ext : External⦄ where
  unfoldable pub add_host_rule :
      String → Option String → RuleNames × GoMap Json → RuleNames × GoMap Json
  add_host_rule vsname none s = s
  add_host_rule vsname (some hostname) (irules, rlt) = (
    insert vsname (rules_at vsname irules ++ vsname ∷ []) irules,
    insert ("ltm/rule/" ⧺ vsname)
        (object (members (("class", text "iRule") ∷ ("iRule", text (host_rule hostname)) ∷ [])))
        rlt,
  )

  -- The rules of the listeners with a hostname.
  unfoldable pub add_host_rules :
      Gateway → List Listener → RuleNames × GoMap Json → RuleNames × GoMap Json
  add_host_rules gw [] s = s
  add_host_rules gw (ls ∷ lss) s =
      add_host_rules gw lss (add_host_rule (gw_listener_name gw ls) ls.hostname s)

  module _ (c : SigCache) (listeners : GoMap Listener) (hr : HttpRoute) where
    abbrev pub takes_route : ParentRef → Bool
    takes_route pr =
        route_matches (or_default hr.namespace pr.namespace)
          (lookup (hr_parent_name hr pr) listeners) (get_namespace hr.namespace c) http_route_type

    unfoldable pub add_parent_rule : ParentRef → RuleNames → RuleNames
    add_parent_rule pr irules =
        let vsname = hr_parent_name hr pr in
        let names = rules_at vsname irules in
        insert vsname (if takes_route pr then names ++ hr_name hr ∷ [] else names) irules

    unfoldable pub add_parent_rules : List ParentRef → RuleNames → Attempt RuleNames
    add_parent_rules [] irules = done irules
    add_parent_rules (pr ∷ prs) irules = elim pr.section_name [
      | none ↦ fails "sectionName of paraentRefs is nil, not supported"
      | some sn ↦ add_parent_rules prs (add_parent_rule pr irules)
    ]

  unfoldable pub add_route_rules :
      SigCache → GoMap Listener → List HttpRoute → RuleNames → Attempt RuleNames
  add_route_rules c listeners [] irules = done irules
  add_route_rules c listeners (hr ∷ hrs) irules = do
    irules' ← add_parent_rules c listeners hr hr.parent_refs irules
    add_route_rules c listeners hrs irules'

abbrev pub certificate_file : Secret → Json
certificate_file scrt = object (
    members (
      ("class", text "Certificate")
      ∷ ("certificate", text scrt.tls_crt)
      ∷ ("privateKey", text scrt.tls_key)
      ∷ []))

-- The loop of parseSecrets.
unfoldable pub add_files : List Secret → GoMap Json → GoMap Json
add_files [] rlt = rlt
add_files (scrt ∷ scrts) rlt =
    add_files scrts (insert ("sys/file/certificate/" ⧺ tls_name scrt) (certificate_file scrt) rlt)

abbrev pub tls_server : List Secret → Json
tls_server scrts = object (
    members (
      ("class", text "TLS_Server")
      ∷ (
        "certificates",
        array (
            items
              (map (λ scrt. object (members (("certificate", text (tls_name scrt)) ∷ []))) scrts)),
      )
      ∷ []))

unfoldable pub parse_secrets : String → List Secret → GoMap Json → GoMap Json
parse_secrets lsname [] rlt = rlt
parse_secrets lsname (scrt ∷ scrts) rlt =
    insert ("ltm/profile/client-ssl/" ⧺ lsname) (tls_server (scrt ∷ scrts))
      (add_files (scrt ∷ scrts) rlt)

unfoldable pub parse_secret_map : GoMap (List Secret) → GoMap Json → GoMap Json
parse_secret_map [] rlt = rlt
parse_secret_map ((k, scrts) ∷ m) rlt = parse_secret_map m (parse_secrets k scrts rlt)

-- The switch on the protocol; one that it does not know adds nothing.
unfoldable pub protocol_fields : String → String → Attempt (GoMap Json)
protocol_fields lsname protocol =
    if protocol == "HTTP"
    then done (("profileHTTP", text "basic") ∷ ("class", text "Service_HTTP") ∷ [])
    else if protocol == "HTTPS"
    then done (
        ("class", text "Service_HTTPS")
        ∷ ("profileHTTP", text "basic")
        ∷ ("serverTLS", text lsname)
        ∷ [])
    else if protocol == "TCP" || (protocol == "UDP" || protocol == "TLS")
    then fails ("unsupported ProtocolType: " ⧺ protocol)
    else done []

abbrev pub virtual_of : GoMap Json → String → ℕ → List String → Json
virtual_of fs ip port irules = object (
    members (
      fs
      ++ ("virtualAddresses", array (items (text ip ∷ [])))
        ∷ ("virtualPort", number port)
        ∷ ("iRules", array (items (map text irules)))
        ∷ ("snat", text "auto")
        ∷ []))

module _ (gw : Gateway) (irules : RuleNames) where
  abbrev pub virtual_key : ℕ → Listener → String
  virtual_key i ls = "ltm/virtual/" ⧺ gw_listener_name gw ls ⧺ "." ⧺ decimal i

  -- The virtual servers of an address.
  unfoldable pub add_virtuals : ℕ → String → List Listener → GoMap Json → Attempt (GoMap Json)
  add_virtuals i ip [] rlt = done rlt
  add_virtuals i ip (ls ∷ lss) rlt =
      let lsname = gw_listener_name gw ls in
      do
        fs ← protocol_fields lsname ls.protocol
        add_virtuals i ip lss
            (insert (virtual_key i ls) (virtual_of fs ip ls.port (rules_at lsname irules)) rlt)

  unfoldable pub add_address : ℕ → Option String → String → GoMap Json → Attempt (GoMap Json)
  add_address i none ip rlt = breaks
  add_address i (some type) ip rlt =
      if type == "IPAddress"
      then add_virtuals i ip gw.listeners rlt
      else fails ("unsupported AddressType: " ⧺ type)

  unfoldable pub add_addresses : ℕ → List GatewayAddress → GoMap Json → Attempt (GoMap Json)
  add_addresses i [] rlt = done rlt
  add_addresses i (addr ∷ addrs) rlt = do
    rlt' ← add_address i addr.type addr.value rlt
    add_addresses (i + 1) addrs rlt'

module _ ⦃ext : External⦄ (c : SigCache) where
  unfoldable pub parse_gateway : Option Gateway → GoMap Json → Attempt (GoMap Json)
  parse_gateway none rlt = done rlt
  parse_gateway (some gw) rlt =
      let listeners = listener_map gw gw.listeners [] in
      let (irules, ruled) = add_host_rules gw gw.listeners ([], rlt) in
      do
        irules' ← add_route_rules c listeners (attached_http_routes (some gw) c) irules
        scrtmap ← attached_secrets (some gw) c
        add_addresses gw irules' 0 gw.addresses (parse_secret_map scrtmap ruled)
