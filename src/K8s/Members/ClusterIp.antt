-- ===== src/K8s/Members/ClusterIp.antt =====
-- The members of a ClusterIP service: one for each port and address of each subset.
use mathlib.Core.List.Memᴰ
use mathlib.Core.List.Memᴰ.{Memᴰ, head, tail}
use bigip_kubernetes_gateway.Base.{
  ℕ, String, ◌≡◌, refl, ap, ◌∙◌, ◌↔◌, ◌⊎◌, inl, inr, Bool, some, List, [], ◌∷◌, ◌++◌,
}
use bigip_kubernetes_gateway.Api.{Service, Endpoints, EndpointSubset, EndpointAddress}
use bigip_kubernetes_gateway.K8s.Nodes.{K8Node, NodeCache, get}
use bigip_kubernetes_gateway.K8s.Members.{
  Member, Result, ok, ◌>>=◌, mac_of, address_member, address_members, port_members, subset_members,
  format_found, format_members,
}

-- A result that is a list of exactly the members with a property.
abbrev Collects : Result (List Member) → (Member → Type 0) → Type 0
Collects r P = (ms : List Member) × (r ≡ ok ms) × ((m : Member) → Memᴰ m ms ↔ P m)

Collects-iff :
    {r : Result (List Member)} {P Q : Member → Type 0}
    → ((m : Member) → P m ↔ Q m)
    → Collects r P
    → Collects r Q
Collects-iff h (ms, e, f) = (ms, e, λ m. (λ i. (h m).0 ((f m).0 i), λ q. (f m).1 ((h m).1 q)))

Collects-nil : {P : Member → Type 0} → ((m : Member) → ¬ P m) → Collects (ok []) P
Collects-nil h = ([], refl, λ m. (λ i. absurd (Memᴰ.not-nil i), λ p. absurd (h m p)))

Collects-append :
    {r r' : Result (List Member)} {P Q : Member → Type 0}
    → Collects r P
    → Collects r' Q
    → Collects (r >>= (λ ms. r' >>= (λ rest. ok (ms ++ rest)))) (λ m. P m ⊎ Q m)
Collects-append (ms, e, f) (rest, e', f') = (
  ms ++ rest,
  rw (e, e'),
  λ m. (
    λ i. elim (Memᴰ.append_cases ms i) [ inl j ↦ inl ((f m).0 j) | inr j ↦ inr ((f' m).0 j) ],
    λ q. elim q [
      | inl p ↦ Memᴰ.append_left rest ((f m).1 p)
      | inr p ↦ Memᴰ.append_right ms ((f' m).1 p)
    ],
  ),
)

module _ (is_ipv6 : String → Bool) (nodes : NodeCache) where
  -- The node of an address is known.
  abbrev pub Known : EndpointAddress → Type 0
  Known addr =
      (node : String) × (k : K8Node) × (addr.node_name ≡ some node) × (get node nodes ≡ some k)

  -- The member of a port and an address, with the address of the node's tunnel.
  abbrev pub IsMember : ℕ → EndpointAddress → Member → Type 0
  IsMember port addr m =
      (node : String) × (k : K8Node) × (addr.node_name ≡ some node)
      × (get node nodes ≡ some k)
      × (m ≡ record {
        target_port = port;
        ip_addr = addr.ip;
        mac_addr = mac_of is_ipv6 nodes addr.ip k;
      })

  abbrev pub AtAddress : ℕ → List EndpointAddress → Member → Type 0
  AtAddress port addrs m = (addr : EndpointAddress) × Memᴰ addr addrs × IsMember port addr m

  abbrev pub AtPort : List ℕ → List EndpointAddress → Member → Type 0
  AtPort ports addrs m = (port : ℕ) × Memᴰ port ports × AtAddress port addrs m

  abbrev pub InSubset : List EndpointSubset → Member → Type 0
  InSubset ss m = (s : EndpointSubset) × Memᴰ s ss × AtPort s.ports s.addresses m

  -- A list's first element, or a later one.
  first_or_later {ℓ} :
      {A : Type ℓ} (P : A → Type 0) (a : A) (l : List A)
      → (P a ⊎ ((x : A) × Memᴰ x l × P x)) ↔ ((x : A) × Memᴰ x (a ∷ l) × P x)
  first_or_later P a l = (
    λ h. elim h [ inl p ↦ (a, head refl, p) | inr (x, i, p) ↦ (x, tail i, p) ],
    λ (x, i, p). elim (Memᴰ.cases_cons i) [ inl e ↦ inl (rw (← e) p) | inr j ↦ inr (x, j, p) ],
  )

  abbrev member_of : ℕ → EndpointAddress → K8Node → Member
  member_of port addr k = record {
    target_port = port;
    ip_addr = addr.ip;
    mac_addr = mac_of is_ipv6 nodes addr.ip k;
  }

  same_node :
      (addr : EndpointAddress) (node node' : String) (k k' : K8Node)
      → addr.node_name ≡ some node
      → addr.node_name ≡ some node'
      → get node nodes ≡ some k
      → get node' nodes ≡ some k'
      → k' ≡ k
  same_node addr node node' k k' e e' f f' = let same : node' ≡ node = cc in cc

  one_address :
      (port : ℕ) (addr : EndpointAddress)
      → Known addr
      → (m : Member) × (address_member is_ipv6 nodes port addr ≡ ok m)
        × ((m' : Member) → (m' ≡ m) ↔ IsMember port addr m')
  unfolding address_member
  one_address port addr (node, k, e, f) = (
    member_of port addr k,
    rw (e, address_member, f),
    λ m'. (
      λ same. (node, k, e, f, same),
      λ (node', k', e', f', same).
          same ∙ ap (member_of port addr) (same_node addr node node' k k' e e' f f'),
    ),
  )

  Collects-address_members :
      (port : ℕ) (addrs : List EndpointAddress)
      → ((addr : EndpointAddress) → Memᴰ addr addrs → Known addr)
      → Collects (address_members is_ipv6 nodes port addrs) (AtAddress port addrs)
  unfolding address_members
  Collects-address_members port [] h = Collects-nil (λ m p. Memᴰ.not-nil p.1)
  Collects-address_members port (addr ∷ addrs) h =
      let (m, e, f) = one_address port addr (h addr (head refl)) in
      let (ms, e', f') = Collects-address_members port addrs (λ a i. h a (tail i)) in
      Collects-iff (λ m'. first_or_later (λ a. IsMember port a m') addr addrs)
        (
          m ∷ ms,
          rw (e, e'),
          λ m'. (
            λ i. elim (Memᴰ.cases_cons i) [ inl s ↦ inl ((f m').0 s) | inr j ↦ inr ((f' m').0 j) ],
            λ q. elim q [ inl p ↦ head ((f m').1 p) | inr p ↦ tail ((f' m').1 p) ],
          ),
        )

  Collects-port_members :
      (ports : List ℕ) (addrs : List EndpointAddress)
      → ((addr : EndpointAddress) → Memᴰ addr addrs → Known addr)
      → Collects (port_members is_ipv6 nodes ports addrs) (AtPort ports addrs)
  unfolding port_members
  Collects-port_members [] addrs h = Collects-nil (λ m p. Memᴰ.not-nil p.1)
  Collects-port_members (port ∷ ports) addrs h =
      Collects-iff (λ m. first_or_later (λ p. AtAddress p addrs m) port ports)
        (Collects-append (Collects-address_members port addrs h)
          (Collects-port_members ports addrs h))

  Collects-subset_members :
      (ss : List EndpointSubset)
      → ((s : EndpointSubset) (addr : EndpointAddress)
          → Memᴰ s ss
          → Memᴰ addr s.addresses
          → Known addr)
      → Collects (subset_members is_ipv6 nodes ss) (InSubset ss)
  unfolding subset_members
  Collects-subset_members [] h = Collects-nil (λ m p. Memᴰ.not-nil p.1)
  Collects-subset_members (s ∷ ss) h =
      Collects-iff (λ m. first_or_later (λ t. AtPort t.ports t.addresses m) s ss)
        (Collects-append (Collects-port_members s.ports s.addresses (λ a i. h s a (head refl) i))
          (Collects-subset_members ss (λ t a i j. h t a (tail i) j)))

  -- If the node of every address is known, a ClusterIP service gets members, and they are exactly those
  -- of a port and an address of one subset, with the hardware address of the node where that is vxlan.
  pub cluster_ip_service :
      (svc : Service) (eps : Endpoints)
      → svc.type ≡ "ClusterIP"
      → ((s : EndpointSubset) (addr : EndpointAddress)
          → Memᴰ s eps.subsets
          → Memᴰ addr s.addresses
          → Known addr)
      → (ms : List Member) × (format_members is_ipv6 nodes (some svc) (some eps) ≡ ok ms)
        × ((m : Member) → Memᴰ m ms ↔ InSubset eps.subsets m)
  unfolding format_members format_found
  cluster_ip_service svc eps t h =
      let (ms, e, f) = Collects-subset_members eps.subsets h in (ms, rw t e, f)
