-- ===== src/K8s/Tests.antt =====
-- A node of a Calico cluster, and a NodePort service on it.
use mathlib.Core.List.Memᴰ
use mathlib.Core.List.Memᴰ.{Memᴰ}
use bigip_kubernetes_gateway.Base.{String, ◌≡◌, ◌≢◌, refl, ◌⊎◌, false, none, some, [], ◌∷◌}
use bigip_kubernetes_gateway.Base.Lists.{All}
use bigip_kubernetes_gateway.Base.GoMap.{lookup, insert, values}
use bigip_kubernetes_gateway.Base.Text.{split, ◌⧺◌}
use bigip_kubernetes_gateway.Api.{Service, Endpoints, core_group}
use bigip_kubernetes_gateway.K8s.Nodes.{
  Node, K8Node, NodeCache, Unmarshalled, object_of, build_node, detect_cni_type, set,
  is_unreachable, before_mask, store_built,
}
use bigip_kubernetes_gateway.K8s.Nodes.Laws.{Updated, set-Updated}
use bigip_kubernetes_gateway.K8s.Members.{retry, ok, err, format_members}
use bigip_kubernetes_gateway.K8s.Members.{Member}
use bigip_kubernetes_gateway.K8s.Members.ClusterIp.{Known, InSubset, cluster_ip_service}
use bigip_kubernetes_gateway.Api.{EndpointSubset, EndpointAddress}
use bigip_kubernetes_gateway.K8s.Nodes.{get}
use bigip_kubernetes_gateway.Base.{◌↔◌, List}
use bigip_kubernetes_gateway.K8s.Members.Laws.{HasGap, OnNode, node_port_service}

abbrev no_data : String → Unmarshalled
no_data s = object_of []

abbrev node : Node
node = record {
  name = "worker";
  annotations = ("projectcalico.org/IPv4Address", "10.0.0.7/24") ∷ [];
  taints = [];
  conditions = "CalicoIsUp" ∷ [];
  addresses = [];
}

abbrev worker : K8Node
worker = record {
  mac_addr = "";
  ip_addr = "10.0.0.7";
  mac_addr_v6 = "";
  ip_addr_v6 = "";
  name = "worker";
  net_type = "calico-underlay";
}

abbrev nodes : NodeCache
nodes = ("worker", worker) ∷ []

set_example : Updated node (build_node no_data node (detect_cni_type node.conditions)) [] nodes none
unfolding set is_unreachable build_node detect_cni_type store_built before_mask split lookup insert
set_example = set-Updated no_data node [] nodes none refl

abbrev web : Service
web = record {
  meta = record { namespace = "back"; name = "web"; group = core_group; kind = "Service" };
  type = "NodePort";
  node_ports = 30080 ∷ [];
}

abbrev no_endpoints : Endpoints
no_endpoints = record { namespace = "back"; name = "web"; subsets = [] }

node_port_example :
    (All (λ nd. nd.ip_addr ≢ "") (values nodes)
      × ((ms : List Member) × (format_members (λ s. false) nodes (some web) (some no_endpoints)
            ≡ ok ms)
          × ((m : Member) → Memᴰ m ms ↔ OnNode web.node_ports (values nodes) m)))
    ⊎ ((nd : K8Node) × HasGap (values nodes) nd
        × (format_members (λ s. false) nodes (some web) (some no_endpoints)
            ≡ err (retry ("node ip " ⧺ nd.name ⧺ " not found yet"))))
node_port_example = node_port_service (λ s. false) nodes web no_endpoints refl

abbrev internal : Service
internal = record web { type = "ClusterIP" }

abbrev pod : EndpointAddress
pod = record { ip = "10.244.1.5"; node_name = some "worker" }

abbrev pods : EndpointSubset
pods = record { ports = 8080 ∷ []; addresses = pod ∷ [] }

abbrev endpoints : Endpoints
endpoints = record { namespace = "back"; name = "web"; subsets = pods ∷ [] }

worker_Known : (addr : EndpointAddress) → addr ≡ pod → Known (λ s. false) nodes addr
unfolding get lookup
worker_Known addr e = rw e ("worker", worker, refl, refl)

in_pods :
    (s : EndpointSubset) (addr : EndpointAddress) → s ≡ pods → Memᴰ addr s.addresses → addr ≡ pod
in_pods s addr e i = Memᴰ.eq_of_singleton (rw e at i)

pods-Known :
    (s : EndpointSubset) (addr : EndpointAddress)
    → Memᴰ s (pods ∷ [])
    → Memᴰ addr s.addresses
    → Known (λ s. false) nodes addr
pods-Known s addr i j = worker_Known addr (in_pods s addr (Memᴰ.eq_of_singleton i) j)

cluster_ip_example :
    (ms : List Member) × (format_members (λ s. false) nodes (some internal) (some endpoints)
      ≡ ok ms)
    × ((m : Member) → Memᴰ m ms ↔ InSubset (λ s. false) nodes (pods ∷ []) m)
cluster_ip_example = cluster_ip_service (λ s. false) nodes internal endpoints refl pods-Known
