-- ===== src/K8s/Nodes.antt =====
-- internal/k8s/k8s.go, types.go and utils.go: the cache of nodes. Its channel of one place is a mutex
-- that each access holds, so that an access is one step.
pub mod Laws
pub mod Mac
use bigip_kubernetes_gateway.Base.{
  String, Bool, true, false, ◌&&◌, Option, none, some, List, [], ◌∷◌, ◌==◌, if◌then◌else◌,
  or_default, Outcome, returns, panics,
}
use bigip_kubernetes_gateway.Base.GoMap.{GoMap, lookup, insert, delete}
use bigip_kubernetes_gateway.Base.Text.{split, ◌⧺◌}
use bigip_kubernetes_gateway.Json.{Json, text, number, boolean, array, object}
use Mac.{ipv4_to_mac}

pub record Taint : Type 0 where
  pub key : String
  pub effect : String

pub record NodeAddress : Type 0 where
  pub type : String
  pub address : String

-- v1.Node of k8s.io/api, by the fields that the code reads; a condition stands by its reason.
pub record Node : Type 0 where
  pub name : String
  pub annotations : GoMap String
  pub taints : List Taint
  pub conditions : List String
  pub addresses : List NodeAddress

pub record K8Node : Type 0 where
  pub mac_addr : String
  pub ip_addr : String
  pub mac_addr_v6 : String
  pub ip_addr_v6 : String
  pub name : String
  pub net_type : String

abbrev pub NodeCache : Type 0
NodeCache = GoMap K8Node

unfoldable pub detect_cni_type : List String → String
detect_cni_type [] = "unknown"
detect_cni_type (reason ∷ conditions) =
    let rest = detect_cni_type conditions in
    if reason == "CiliumIsUp"
    then "cilium"
    else if reason == "CalicoIsUp"
    then "calico"
    else if reason == "FlannelIsUp"
    then "flannel"
    else rest

unfoldable pub unset : String → NodeCache → NodeCache
unset name c = delete name c

unfoldable pub get : String → NodeCache → Option K8Node
get name c = lookup name c

unfoldable pub all_nodes : NodeCache → NodeCache
all_nodes c = c

unfoldable pub is_unreachable : List Taint → Bool
is_unreachable [] = false
is_unreachable (t ∷ ts) =
    if t.key == "node.kubernetes.io/unreachable" && t.effect == "NoSchedule"
    then true
    else is_unreachable ts

-- The first internal address.
unfoldable pub internal_ip : List NodeAddress → String
internal_ip [] = ""
internal_ip (a ∷ as_) = if a.type == "InternalIP" then a.address else internal_ip as_

-- The address before the mask.
unfoldable pub before_mask : List String → String
before_mask [] = ""
before_mask (a ∷ l) = a

abbrev pub annotation : String → Node → String
annotation key n = or_default "" (lookup key n.annotations)

abbrev pub new_node : String → K8Node
new_node name = record {
  mac_addr = "";
  ip_addr = "";
  mac_addr_v6 = "";
  ip_addr_v6 = "";
  name = name;
  net_type = "";
}

-- What building a node gives: the node, an error, or a panic.
pub data Built : Type 0 where
  built : K8Node → Built
  refused : String → Built
  broken : Built

-- v["VtepMAC"].(string): nil and other types panic.
unfoldable pub vtep_mac : Option Json → Option String
vtep_mac (some (text s)) = some s
vtep_mac _ = none

-- json.Unmarshal into a map, a parameter: the map, or an error's text.
pub data Unmarshalled : Type 0 where
  object_of : GoMap Json → Unmarshalled
  error : String → Unmarshalled

unfoldable pub store_built : String → Built → NodeCache → Outcome (NodeCache × Option String)
store_built name (built node) c = returns (insert name node c, none)
store_built name (refused err) c = returns (c, some err)
store_built name broken c = panics

module _ (unmarshal : String → Unmarshalled) where
  flannel_v4 : Node → K8Node → Built
  flannel_v4 n node = elim (lookup "flannel.alpha.coreos.com/backend-data" n.annotations) [
    | none ↦ built node
    | some mac_str ↦ elim (unmarshal mac_str) [
      | error err ↦ refused ("failed to unmarshal m: " ⧺ err)
      | object_of v ↦ elim (vtep_mac (lookup "VtepMAC" v)) [
        | none ↦ broken
        | some mac ↦ built (record node {
          name = n.name;
          ip_addr = annotation "flannel.alpha.coreos.com/public-ip" n;
          net_type = annotation "flannel.alpha.coreos.com/backend-type" n;
          mac_addr = mac;
        })
      ]
    ]
  ]

  flannel_v6_data : Node → K8Node → String → String → Built
  flannel_v6_data n node mac_str ip = elim (unmarshal mac_str) [
    | error err ↦ refused ("failed to unmarshal mac str v6: " ⧺ err)
    | object_of v ↦ elim (vtep_mac (lookup "VtepMAC" v)) [
      | none ↦ broken
      | some mac ↦ built (record node {
        net_type = annotation "flannel.alpha.coreos.com/backend-type" n;
        ip_addr_v6 = ip;
        mac_addr_v6 = mac;
      })
    ]
  ]

  flannel_v6 : Node → Built → Built
  unfolding flannel_v6_data
  flannel_v6 n (built node) =
      elim (lookup "flannel.alpha.coreos.com/backend-v6-data" n.annotations) [
        | none ↦ built node
        | some mac_str ↦ elim (lookup "flannel.alpha.coreos.com/public-ipv6" n.annotations) [
          | none ↦ built node
          | some ip ↦ flannel_v6_data n node mac_str ip
        ]
      ]
  flannel_v6 n b = b

  -- The switch on the type of the cluster's network.
  unfoldable pub build_node : Node → String → Built
  unfolding flannel_v4 flannel_v6
  build_node n cnitype =
      if cnitype == "cilium"
      then built (record {
        mac_addr = ipv4_to_mac (internal_ip n.addresses);
        ip_addr = internal_ip n.addresses;
        mac_addr_v6 = "";
        ip_addr_v6 = "";
        name = n.name;
        net_type = "";
      })
      else if cnitype == "flannel"
      then flannel_v6 n (flannel_v4 n (new_node n.name))
      else if cnitype == "calico"
      then built (record {
        mac_addr = "";
        ip_addr = before_mask (split "/" (annotation "projectcalico.org/IPv4Address" n));
        mac_addr_v6 = "";
        ip_addr_v6 = "";
        name = n.name;
        net_type = "calico-underlay";
      })
      else refused ("unknown CNI type: " ⧺ cnitype ⧺ " for node " ⧺ n.name)

  unfoldable pub set : Node → NodeCache → Outcome (NodeCache × Option String)
  unfolding store_built
  set n c =
      if is_unreachable n.taints
      then returns (unset n.name c, none)
      else store_built n.name (build_node n (detect_cni_type n.conditions)) c
