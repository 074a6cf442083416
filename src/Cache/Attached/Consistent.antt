-- ===== src/Cache/Attached/Consistent.antt =====
-- GatewayRefsOfHR and AttachedHTTPRoutes look at the same relation from its two ends.
use mathlib.Core.List.Memᴰ
use mathlib.Core.List.Memᴰ.{Memᴰ, head}
use bigip_kubernetes_gateway.Base.{
  String, ◌≡◌, refl, sym, ap, ◌∙◌, ◌↔◌, Bool, true, false, ◌&&◌, Option, none, some, List, [], ◌∷◌,
  ◌++◌, ◌==◌, eq_iff, if◌then◌else◌, arith, inl, inr, Bool-cases, Option-cases, or_default, returns,
}
use bigip_kubernetes_gateway.Base.Lists.{All, Mem-select, Mem_of_select}
use bigip_kubernetes_gateway.Base.GoMap.{lookup, values}
use bigip_kubernetes_gateway.Api.{Gateway, HttpRoute, Listener, ParentRef}
use bigip_kubernetes_gateway.External.{External, IsLawful}
use bigip_kubernetes_gateway.Names.{hr_parent_name}
use bigip_kubernetes_gateway.RouteMatch.{route_matches, http_route_type}
use bigip_kubernetes_gateway.Cache.{SigCache, object_key}
use bigip_kubernetes_gateway.Cache.Refer.Keys.{IsName, IsOptionalName}
use bigip_kubernetes_gateway.Cache.Attached.{
  scan_section, scan_listeners, ref_found, ref_key, gateway_refs, gateway_refs_of_hr, listener_map,
  attaches_by, attached_http_routes,
}
use bigip_kubernetes_gateway.Cache.Attached.Sections.{
  HasDistinctNames, named_listener, parent_key, lookup-listener_map, scan_section-eq, or_else,
}
use bigip_kubernetes_gateway.Cache.Attached.ObjectKeys.{object_key-inj, namespace_named, ref_key-eq}

-- A parent reference with a section and with names that Kubernetes admits.
pub record IsParent (pr : ParentRef) : Type 0 where
  pub section : (sn : String) × (pr.section_name ≡ some sn)
  pub name : IsName pr.name
  pub namespace : IsOptionalName pr.namespace

module _ ⦃ext : External⦄ where
  -- Each gateway stands under its key.
  abbrev pub IsKeyed : SigCache → Type 0
  IsKeyed c =
      (k : String) (gw : Gateway)
      → lookup k c.gateway ≡ some gw
      → (k ≡ object_key gw.namespace gw.name)
        × IsName gw.namespace
        × IsName gw.name
        × HasDistinctNames gw.listeners

or_else-none : (o : Option Listener) → or_else o none ≡ o
or_else-none none = refl
or_else-none (some ls) = refl

module _ ⦃ext : External⦄ (lawful : IsLawful ext) where
  module _ (c : SigCache) (hr : HttpRoute) (gw : Gateway) (keyed : IsKeyed c)
      (hn : IsName hr.namespace)
      (stored : lookup (object_key gw.namespace gw.name) c.gateway ≡ some gw) where
    abbrev taken : ParentRef → Bool
    taken pr =
        route_matches gw.namespace (lookup (hr_parent_name hr pr) (listener_map gw gw.listeners []))
          (lookup hr.namespace c.namespace) http_route_type

    abbrev is_key : ParentRef → Bool
    is_key pr =
        object_key (or_default hr.namespace pr.namespace) pr.name == object_key gw.namespace gw.name

    -- For a reference to the gateway, both sides ask the same listener.
    taken-eq-scan :
        (pr : ParentRef) (p : IsParent pr) (sn : String)
        → pr.section_name ≡ some sn
        → is_key pr ≡ true
        → taken pr ≡ scan_section c hr gw sn gw.listeners
    unfolding lookup
    taken-eq-scan pr p sn e y =
        let (_, gns, gn, d) = keyed _ gw stored in
        let same =
          object_key-inj lawful _ _ _ _ (namespace_named hr pr.namespace hn p.namespace) p.name gns
            gn ((eq_iff _ _).0 y) in
        let ens : or_default hr.namespace pr.namespace ≡ gw.namespace = cc in
        let en : pr.name ≡ gw.name = cc in
        rw
          (
            parent_key gw hr pr sn ens en e,
            lookup-listener_map gw sn gw.listeners [] d,
            scan_section-eq c hr gw sn gw.listeners d,
          )
          (ap (λ o. route_matches gw.namespace o (lookup hr.namespace c.namespace) http_route_type)
            (or_else-none (named_listener sn gw.listeners)))

    found_by_key :
        (pr : ParentRef) (p : IsParent pr)
        → is_key pr ≡ true
        → lookup (ref_key c hr pr) c.gateway ≡ some gw
    found_by_key pr p y =
        rw
          (
            ref_key-eq lawful c hr pr (namespace_named hr pr.namespace hn p.namespace) p.name,
            (eq_iff _ _).0 y,
          )
          stored

    key_of_found :
        (pr : ParentRef) (p : IsParent pr)
        → lookup (ref_key c hr pr) c.gateway ≡ some gw
        → is_key pr ≡ true
    key_of_found pr p e = (eq_iff _ _).1 (
        sym (ref_key-eq lawful c hr pr (namespace_named hr pr.namespace hn p.namespace) p.name)
        ∙ (keyed _ gw e).0)

    scan_listeners-eq :
        (g : Gateway) (sn : String) (lss : List Listener)
        → scan_listeners c hr g (some sn) lss ≡ returns (scan_section c hr g sn lss)
    unfolding scan_listeners scan_section
    scan_listeners-eq g sn [] = refl
    scan_listeners-eq g sn (ls ∷ lss) = refl

    ref_found-eq :
        (pr : ParentRef) (g : Gateway) (sn : String)
        → pr.section_name ≡ some sn
        → ref_found c hr pr (some g)
          ≡ returns (if scan_section c hr g sn g.listeners then g ∷ [] else [])
    unfolding ref_found
    ref_found-eq pr g sn e = rw (e, scan_listeners-eq)

    -- What a reference gives, and that it gives the gateway exactly if it attaches the route.
    abbrev Given : ParentRef → Type 0
    Given pr =
        (gws : List Gateway) × (ref_found c hr pr (lookup (ref_key c hr pr) c.gateway)
          ≡ returns gws)
        × (Memᴰ gw gws → is_key pr && taken pr ≡ true)
        × (is_key pr && taken pr ≡ true → Memᴰ gw gws)

    Given-missing :
        (pr : ParentRef) (p : IsParent pr) → lookup (ref_key c hr pr) c.gateway ≡ none → Given pr
    unfolding ref_found
    Given-missing pr p missing = (
      [],
      rw missing,
      λ m. absurd (Memᴰ.not-nil m),
      λ y. absurd (cc (missing, found_by_key pr p (ground (arith, y)))),
    )

    Given-found :
        (pr : ParentRef) (p : IsParent pr) (g : Gateway) (sn : String)
        → pr.section_name ≡ some sn
        → lookup (ref_key c hr pr) c.gateway ≡ some g
        → Given pr
    Given-found pr p g sn e found = elim (Bool-cases (scan_section c hr g sn g.listeners)) [
      | inl y ↦ (
        g ∷ [],
        rw (found, ref_found-eq pr g sn e, y),
        λ m.
            let same : gw ≡ g = Memᴰ.eq_of_singleton m in
            let k = key_of_found pr p (rw same found) in
            let t : taken pr ≡ true = rw (taken-eq-scan pr p sn e k, same) y in
            ground (arith, k, t),
        λ t.
            let same : some gw ≡ some g = sym (found_by_key pr p (ground (arith, t))) ∙ found in
            head (cc same),
      )
      | inr n ↦ (
        [],
        rw (found, ref_found-eq pr g sn e, n),
        λ m. absurd (Memᴰ.not-nil m),
        λ t.
            let k : is_key pr ≡ true = ground (arith, t) in
            let same : some gw ≡ some g = sym (found_by_key pr p k) ∙ found in
            let same' : gw ≡ g = cc same in
            let f : taken pr ≡ false = rw (taken-eq-scan pr p sn e k, same') n in
            absurd (ground (arith, t, f)),
      )
    ]

    given : (pr : ParentRef) → IsParent pr → Given pr
    given pr p =
        let (sn, e) = p.section in
        elim (Option-cases (lookup (ref_key c hr pr) c.gateway)) [
          | inl missing ↦ Given-missing pr p missing
          | inr (g, found) ↦ Given-found pr p g sn e found
        ]

    abbrev Agrees : List ParentRef → Type 0
    Agrees prs =
        (gws : List Gateway) × (gateway_refs c hr prs ≡ returns gws)
        × (Memᴰ gw gws → attaches_by gw (listener_map gw gw.listeners []) c.namespace hr prs ≡ true)
        × (attaches_by gw (listener_map gw gw.listeners []) c.namespace hr prs ≡ true → Memᴰ gw gws)

    agrees : (prs : List ParentRef) → All IsParent prs → Agrees prs
    unfolding gateway_refs attaches_by
    agrees [] h = ([], refl, λ m. absurd (Memᴰ.not-nil m), λ e. cc)
    agrees (pr ∷ prs) (p, ps) =
        let (gws, e, to, from) = given pr p in
        let (rest, e', to', from') = agrees prs ps in
        (
          gws ++ rest,
          rw (e, e'),
          λ m. elim (Memᴰ.append_cases gws m) [
            | inl i ↦ rw (to i)
            | inr i ↦ elim (Bool-cases (is_key pr && taken pr)) [
              | inl y ↦ rw y
              | inr n ↦ rw n (to' i)
            ]
          ],
          λ y. elim (Bool-cases (is_key pr && taken pr)) [
            | inl t ↦ Memᴰ.append_left rest (from t)
            | inr n ↦ Memᴰ.append_right gws (from' (rw n at y))
          ],
        )

    -- With the gateways stored under their keys, distinct listener names, and a route of the store each
    -- parent of which has a section: GatewayRefsOfHR returns, and it has a gateway of the store exactly
    -- if AttachedHTTPRoutes of that gateway has the route.
    pub gateway_refs_iff_attached :
        Memᴰ hr (values c.http_route)
        → All IsParent hr.parent_refs
        → (gws : List Gateway) × (gateway_refs_of_hr (some hr) c ≡ returns gws)
          × (Memᴰ gw gws ↔ Memᴰ hr (attached_http_routes (some gw) c))
    unfolding gateway_refs_of_hr attached_http_routes
    gateway_refs_iff_attached m ps =
        let (gws, e, to, from) = agrees hr.parent_refs ps in
        let attaches = λ (r : HttpRoute).
          attaches_by gw (listener_map gw gw.listeners []) c.namespace r r.parent_refs in
        (
          gws,
          e,
          (
            λ i. Mem-select attaches (values c.http_route) m (to i),
            λ i. from (Mem_of_select attaches (values c.http_route) i).1,
          ),
        )
