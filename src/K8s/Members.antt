-- ===== src/K8s/Members.antt =====
-- internal/k8s/utils.go: FormatMembersFromServiceEndpoints, the pool members of a service.
pub mod Laws
pub mod ClusterIp
use bigip_kubernetes_gateway.Base.{
  ℕ, String, Bool, true, false, Option, none, some, List, [], ◌∷◌, ◌++◌, map, ◌==◌, if◌then◌else◌,
}
use bigip_kubernetes_gateway.Base.GoMap.{GoMap, lookup, values}
use bigip_kubernetes_gateway.Base.Text.{◌⧺◌}
use bigip_kubernetes_gateway.Api.{Service, Endpoints, EndpointSubset, EndpointAddress}
use bigip_kubernetes_gateway.K8s.Nodes.{K8Node, NodeCache, get, all_nodes}

pub record Member : Type 0 where
  pub target_port : ℕ
  pub ip_addr : String
  pub mac_addr : String

-- An error of fmt.Errorf, or one of utils.RetryErrorf, which asks for another try.
pub data Failure : Type 0 where
  fatal retry : String → Failure

pub data Result {ℓ} (A : Type ℓ) : Type ℓ where
  ok : A → Result A
  err : Failure → Result A

infixl 5 ◌>>=◌
abbrev pub ◌>>=◌ {ℓ κ} : {A : Type ℓ} {B : Type κ} → Result A → (A → Result B) → Result B
ok a >>= k = k a
err e >>= k = err e

unfoldable pub node_ips : List K8Node → Result (List String)
node_ips [] = ok []
node_ips (nd ∷ nds) =
    if nd.ip_addr == ""
    then err (retry ("node ip " ⧺ nd.name ⧺ " not found yet"))
    else do ips ← node_ips nds; ok (nd.ip_addr ∷ ips)

abbrev pub member_at : ℕ → String → Member
member_at port ip = record { target_port = port; ip_addr = ip; mac_addr = "" }

unfoldable pub node_port_members : List ℕ → List String → List Member
node_port_members [] ips = []
node_port_members (port ∷ ports) ips = map (member_at port) ips ++ node_port_members ports ips

-- `is_ipv6` is utils.IsIpv6, a parameter.
module _ (is_ipv6 : String → Bool) (nodes : NodeCache) where
  abbrev pub mac_of : String → K8Node → String
  mac_of ip k8no =
      if k8no.net_type == "vxlan"
      then (if is_ipv6 ip then k8no.mac_addr_v6 else k8no.mac_addr)
      else ""

  unfoldable pub address_member : ℕ → EndpointAddress → Result Member
  address_member port addr = elim addr.node_name [
    | none ↦ err (fatal (addr.ip ⧺ " node name was not appointed in endpoints"))
    | some node ↦ elim (get node nodes) [
      | none ↦ err (retry (node ⧺ " not found yet"))
      | some k8no ↦
          ok (record { target_port = port; ip_addr = addr.ip; mac_addr = mac_of addr.ip k8no })
    ]
  ]

  unfoldable pub address_members : ℕ → List EndpointAddress → Result (List Member)
  address_members port [] = ok []
  address_members port (addr ∷ addrs) = do
    m ← address_member port addr
    ms ← address_members port addrs
    ok (m ∷ ms)

  unfoldable pub port_members : List ℕ → List EndpointAddress → Result (List Member)
  port_members [] addrs = ok []
  port_members (port ∷ ports) addrs = do
    ms ← address_members port addrs
    rest ← port_members ports addrs
    ok (ms ++ rest)

  unfoldable pub subset_members : List EndpointSubset → Result (List Member)
  subset_members [] = ok []
  subset_members (s ∷ ss) = do
    ms ← port_members s.ports s.addresses
    rest ← subset_members ss
    ok (ms ++ rest)

  unfoldable pub format_found : Service → Endpoints → Result (List Member)
  format_found svc eps =
      if svc.type == "NodePort"
      then (do ips ← node_ips (values (all_nodes nodes)); ok (node_port_members svc.node_ports ips))
      else if svc.type == "ClusterIP"
      then subset_members eps.subsets
      else if svc.type == "LoadBalancer"
      then err (fatal ("not supported service type: " ⧺ svc.type))
      else if svc.type == "ExternalName"
      then err (fatal ("not supported service type: " ⧺ svc.type))
      else err (fatal ("unknown service type: " ⧺ svc.type))

  unfoldable pub format_members : Option Service → Option Endpoints → Result (List Member)
  format_members none eps = err (fatal "the given service or endpoints is nil")
  format_members (some svc) none = err (fatal "the given service or endpoints is nil")
  format_members (some svc) (some eps) = format_found svc eps
