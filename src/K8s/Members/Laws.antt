-- ===== src/K8s/Members/Laws.antt =====
-- Which members a NodePort service gets.
use mathlib.Core.List.Memᴰ
use mathlib.Core.List.Memᴰ.{Memᴰ, head, tail}
use bigip_kubernetes_gateway.Base.{
  ℕ, String, ◌≡◌, ◌≢◌, refl, ◌⊎◌, inl, inr, ◌↔◌, Bool, some, List, [], ◌∷◌, map, ◌==◌, eq_iff,
  arith, Bool-cases,
}
use bigip_kubernetes_gateway.Base.Lists.{All}
use bigip_kubernetes_gateway.Base.GoMap.{values}
use bigip_kubernetes_gateway.Base.Text.{◌⧺◌}
use bigip_kubernetes_gateway.Api.{Service, Endpoints}
use bigip_kubernetes_gateway.K8s.Nodes.{K8Node, NodeCache, all_nodes}
use bigip_kubernetes_gateway.K8s.Members.{
  Member, retry, ok, err, node_ips, node_port_members, format_found, format_members,
}

-- A node without an address.
abbrev pub HasGap : List K8Node → K8Node → Type 0
HasGap nds nd = Memᴰ nd nds × (nd.ip_addr ≡ "")

abbrev message : K8Node → String
message nd = "node ip " ⧺ nd.name ⧺ " not found yet"

-- The nodes' addresses, or the first node that has none.
node_ips-cases :
    (nds : List K8Node)
    → (All (λ nd. nd.ip_addr ≢ "") nds × (node_ips nds ≡ ok (map (λ nd. nd.ip_addr) nds)))
      ⊎ ((nd : K8Node) × HasGap nds nd × (node_ips nds ≡ err (retry (message nd))))
unfolding node_ips
node_ips-cases [] = inl (tt, refl)
node_ips-cases (nd ∷ nds) = elim (Bool-cases (nd.ip_addr == "")) [
  | inl y ↦ inr (nd, (head refl, (eq_iff nd.ip_addr "").0 y), rw y refl)
  | inr n ↦ elim (node_ips-cases nds) [
    | inl (hs, e) ↦ inl ((ground (arith, eq_iff nd.ip_addr ""), hs), rw n (rw e refl))
    | inr (gap, (i, empty), e) ↦ inr (gap, (tail i, empty), rw n (rw e refl))
  ]
]

-- A member of a port on a node.
abbrev pub OnNode : List ℕ → List K8Node → Member → Type 0
OnNode ports nds m =
    (port : ℕ) × (nd : K8Node) × Memᴰ port ports
    × Memᴰ nd nds
    × (m ≡ record { target_port = port; ip_addr = nd.ip_addr; mac_addr = "" })

abbrev of_port : ℕ → String → Member
of_port port ip = record { target_port = port; ip_addr = ip; mac_addr = "" }

Mem-of_port :
    (port : ℕ) (nds : List K8Node) (m : Member)
    → Memᴰ m (map (of_port port) (map (λ nd. nd.ip_addr) nds))
      ↔ ((nd : K8Node) × Memᴰ nd nds × (m ≡ of_port port nd.ip_addr))
Mem-of_port port [] m = (λ i. absurd (Memᴰ.not-nil i), λ (nd, i, e). absurd (Memᴰ.not-nil i))
Mem-of_port port (nd ∷ nds) m =
    let ih = Mem-of_port port nds m in
    (
      λ i. elim (Memᴰ.cases_cons i) [
        | inl e ↦ (nd, head refl, e)
        | inr j ↦ let (nd', i', e') = ih.0 j in (nd', tail i', e')
      ],
      λ (nd', i, e). elim (Memᴰ.cases_cons i) [
        | inl same ↦ head (rw (← same) e)
        | inr j ↦ tail (ih.1 (nd', j, e))
      ],
    )

Mem-node_port_members :
    (ports : List ℕ) (nds : List K8Node) (m : Member)
    → Memᴰ m (node_port_members ports (map (λ nd. nd.ip_addr) nds)) ↔ OnNode ports nds m
unfolding node_port_members
Mem-node_port_members [] nds m =
    (λ i. absurd (Memᴰ.not-nil i), λ (port, nd, i, j, e). absurd (Memᴰ.not-nil i))
Mem-node_port_members (port ∷ ports) nds m =
    let here = Mem-of_port port nds m in
    let later = Mem-node_port_members ports nds m in
    let first = map (of_port port) (map (λ nd. nd.ip_addr) nds) in
    (
      λ i. elim (Memᴰ.append_cases first i) [
        | inl j ↦ let (nd, i', e) = here.0 j in (port, nd, head refl, i', e)
        | inr j ↦ let (p, nd, i', j', e) = later.0 j in (p, nd, tail i', j', e)
      ],
      λ (p, nd, i, j, e). elim (Memᴰ.cases_cons i) [
        | inl same ↦ Memᴰ.append_left _ (here.1 (nd, j, rw (← same) e))
        | inr i' ↦ Memᴰ.append_right first (later.1 (p, nd, i', j, e))
      ],
    )

-- A NodePort service: if every node of the cache has an address, the answer is a list of members, and
-- they are exactly those of a node port on the address of a node; otherwise the answer is an error that
-- asks for another try and names a node of the cache that has no address.
pub node_port_service :
    (is_ipv6 : String → Bool) (nodes : NodeCache) (svc : Service) (eps : Endpoints)
    → svc.type ≡ "NodePort"
    → (All (λ nd. nd.ip_addr ≢ "") (values nodes)
        × ((ms : List Member) × (format_members is_ipv6 nodes (some svc) (some eps) ≡ ok ms)
            × ((m : Member) → Memᴰ m ms ↔ OnNode svc.node_ports (values nodes) m)))
      ⊎ ((nd : K8Node) × HasGap (values nodes) nd
          × (format_members is_ipv6 nodes (some svc) (some eps)
              ≡ err (retry ("node ip " ⧺ nd.name ⧺ " not found yet"))))
unfolding format_members format_found all_nodes
node_port_service is_ipv6 nodes svc eps t = elim (node_ips-cases (values nodes)) [
  | inl (hs, e) ↦
      inl (hs, (_, rw t (rw e refl), Mem-node_port_members svc.node_ports (values nodes)))
  | inr (nd, gap, e) ↦ inr (nd, gap, rw t (rw e refl))
]
