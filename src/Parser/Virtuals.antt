-- ===== src/Parser/Virtuals.antt =====
-- The iRules of a virtual server are those of its listener.
use bigip_kubernetes_gateway.Base.{
  ℕ, ◌+◌, String, ◌||◌, ◌≡◌, inl, inr, Bool-cases, ◌==◌, Option, none, some, List, [], ◌∷◌,
}
use bigip_kubernetes_gateway.Base.Attempt.{done, >>=-eq-done}
use bigip_kubernetes_gateway.Base.GoMap.{GoMap, lookup, insert}
use bigip_kubernetes_gateway.Json.{Json, text}
use bigip_kubernetes_gateway.Api.{Gateway, GatewayAddress, Listener}
use bigip_kubernetes_gateway.Names.{gw_listener_name}
use bigip_kubernetes_gateway.Parser.Gateways.{
  RuleNames, rules_at, protocol_fields, virtual_of, virtual_key, add_virtuals, add_address,
  add_addresses,
}
use bigip_kubernetes_gateway.Parser.Rules.{
  rule_names, texts-items, AllKnown, Covered, Known-insert, Covered-insert, AllNamed,
}

rule_names-virtual :
    (lsname protocol : String) (fs : GoMap Json) (ip : String) (port : ℕ) (rs : List String)
    → protocol_fields lsname protocol ≡ done fs
    → rule_names (virtual_of fs ip port rs) ≡ rs
unfolding protocol_fields lookup
rule_names-virtual lsname protocol fs ip port rs e = elim (Bool-cases (protocol == "HTTP")) [
  | inl http ↦
      let same : ("profileHTTP", text "basic") ∷ ("class", text "Service_HTTP") ∷ [] ≡ fs =
        cc (rw http at e) in
      rw (← same) (texts-items rs)
  | inr n1 ↦ elim (Bool-cases (protocol == "HTTPS")) [
    | inl https ↦
        let same : ("class", text "Service_HTTPS")
              ∷ ("profileHTTP", text "basic")
              ∷ ("serverTLS", text lsname)
              ∷ []
            ≡ fs =
          cc (rw (n1, https) at e) in
        rw (← same) (texts-items rs)
    | inr n2 ↦ elim (Bool-cases (protocol == "TCP" || (protocol == "UDP" || protocol == "TLS"))) [
      | inl other ↦ cc (rw (n1, n2, other) at e)
      | inr n3 ↦ let same : [] ≡ fs = cc (rw (n1, n2, n3) at e) in rw (← same) (texts-items rs)
    ]
  ]
]

module _ (ps : List String) (gw : Gateway) (irules : RuleNames) where
  -- The resources so far, and the rules of the listeners.
  abbrev Holds : GoMap Json → Type 0
  Holds rlt = Covered ps rlt × AllNamed ps rlt irules

  add_virtuals-Holds :
      (i : ℕ) (ip : String) (lss : List Listener) (rlt out : GoMap Json)
      → Holds rlt
      → add_virtuals gw irules i ip lss rlt ≡ done out
      → Holds out
  unfolding add_virtuals
  add_virtuals-Holds i ip [] rlt out h e = let same : rlt ≡ out = cc in rw (← same) h
  add_virtuals-Holds i ip (ls ∷ lss) rlt out (c, n) e =
      let lsname = gw_listener_name gw ls in
      let (fs, f, g) = >>=-eq-done (protocol_fields lsname ls.protocol) _ e in
      let rs = rules_at lsname irules in
      let v = virtual_of fs ip ls.port rs in
      let key = virtual_key gw irules i ls in
      let named : AllKnown ps rlt (rule_names v) =
        rw (rule_names-virtual lsname ls.protocol fs ip ls.port rs f) (n lsname) in
      add_virtuals-Holds i ip lss (insert key v rlt) out
        (Covered-insert ps key v rlt named c, λ vs r k. Known-insert ps key v rlt r (n vs r k)) g

  add_address-Holds :
      (i : ℕ) (type : Option String) (ip : String) (rlt out : GoMap Json)
      → Holds rlt
      → add_address gw irules i type ip rlt ≡ done out
      → Holds out
  unfolding add_address
  add_address-Holds i none ip rlt out h e = cc e
  add_address-Holds i (some type) ip rlt out h e = elim (Bool-cases (type == "IPAddress")) [
    | inl y ↦ add_virtuals-Holds i ip gw.listeners rlt out h (rw y at e)
    | inr n ↦ cc (rw n at e)
  ]

  pub add_addresses-Holds :
      (i : ℕ) (addrs : List GatewayAddress) (rlt out : GoMap Json)
      → Covered ps rlt × AllNamed ps rlt irules
      → add_addresses gw irules i addrs rlt ≡ done out
      → Covered ps out × AllNamed ps out irules
  unfolding add_addresses
  add_addresses-Holds i [] rlt out h e = let same : rlt ≡ out = cc in rw (← same) h
  add_addresses-Holds i (addr ∷ addrs) rlt out h e =
      let (mid, f, g) = >>=-eq-done (add_address gw irules i addr.type addr.value rlt) _ e in
      add_addresses-Holds (i + 1) addrs mid out
        (add_address-Holds i addr.type addr.value rlt mid h f) g
