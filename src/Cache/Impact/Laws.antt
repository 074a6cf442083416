-- ===== src/Cache/Impact/Laws.antt =====
-- Which gateway classes a change of a namespace concerns.
use mathlib.Core.List.Memᴰ
use mathlib.Core.List.Memᴰ.{Memᴰ, head, tail}
use bigip_kubernetes_gateway.Base.{
  String, ◌≡◌, refl, sym, ◌↔◌, some, List, [], ◌∷◌, ◌==◌, eq_iff, inl, inr, Bool-cases,
  Option-cases,
}
use bigip_kubernetes_gateway.Base.GoMap.{lookup, values}
use bigip_kubernetes_gateway.Api.{Namespace, Gateway, HttpRoute, ParentRef}
use bigip_kubernetes_gateway.External.{External, IsLawful}
use bigip_kubernetes_gateway.Cache.{SigCache}
use bigip_kubernetes_gateway.Cache.Attached.{ref_key}
use bigip_kubernetes_gateway.Cache.Impact.{
  class_of, parent_classes, route_classes, ns_impacted_gateway_classes,
}

module _ ⦃ext : External⦄ (c : SigCache) where
  -- A parent of a route is a gateway of the store, of a class.
  abbrev pub Names : HttpRoute → String → ParentRef → Type 0
  Names hr class pr =
      (gw : Gateway) × (lookup (ref_key c hr pr) c.gateway ≡ some gw) × (gw.class_name ≡ class)

  class_of_iff :
      (hr : HttpRoute) (pr : ParentRef) (class : String)
      → Memᴰ class (class_of (lookup (ref_key c hr pr) c.gateway)) ↔ Names hr class pr
  unfolding class_of
  class_of_iff hr pr class = elim (Option-cases (lookup (ref_key c hr pr) c.gateway)) [
    | inl missing ↦ (λ m. absurd (Memᴰ.not-nil (rw (missing, class_of) at m)), λ (gw, e, n). cc)
    | inr (g, found) ↦ (
      λ m. (g, found, sym (Memᴰ.eq_of_singleton (rw (found, class_of) at m))),
      λ (gw, e, n).
          rw (found, class_of)
            (let same : some gw ≡ some g = cc in let same' : gw ≡ g = cc same in head (cc)),
    )
  ]

  parent_classes_iff :
      (hr : HttpRoute) (prs : List ParentRef) (class : String)
      → Memᴰ class (parent_classes c hr prs) ↔ ((pr : ParentRef) × Memᴰ pr prs × Names hr class pr)
  unfolding parent_classes
  parent_classes_iff hr [] class =
      (λ m. absurd (Memᴰ.not-nil m), λ (pr, i, n). absurd (Memᴰ.not-nil i))
  parent_classes_iff hr (pr ∷ prs) class =
      let (to, from) = class_of_iff hr pr class in
      let (to', from') = parent_classes_iff hr prs class in
      (
        λ m. elim (Memᴰ.append_cases (class_of (lookup (ref_key c hr pr) c.gateway)) m) [
          | inl i ↦ (pr, head refl, to i)
          | inr i ↦ let (q, j, n) = to' i in (q, tail j, n)
        ],
        λ (q, j, n). elim (Memᴰ.cases_cons j) [
          | inl e ↦ Memᴰ.append_left _ (from (rw (← e) n))
          | inr k ↦ Memᴰ.append_right _ (from' (q, k, n))
        ],
      )

  -- A route of the namespace has a parent of the class.
  abbrev pub Concerns : String → String → HttpRoute → Type 0
  Concerns ns class hr =
      (hr.namespace ≡ ns) × ((pr : ParentRef) × Memᴰ pr hr.parent_refs × Names hr class pr)

  same_concern :
      (ns class : String) (q hr : HttpRoute) → q ≡ hr → Concerns ns class q → Concerns ns class hr
  same_concern ns class q hr e h = rw (← e) h

  route_classes_iff :
      (ns : String) (hrs : List HttpRoute) (class : String)
      → Memᴰ class (route_classes c ns hrs)
        ↔ ((hr : HttpRoute) × Memᴰ hr hrs × Concerns ns class hr)
  unfolding route_classes
  route_classes_iff ns [] class =
      (λ m. absurd (Memᴰ.not-nil m), λ (hr, i, n). absurd (Memᴰ.not-nil i))
  route_classes_iff ns (hr ∷ hrs) class =
      let (to, from) = parent_classes_iff hr hr.parent_refs class in
      let (to', from') = route_classes_iff ns hrs class in
      elim (Bool-cases (hr.namespace == ns)) [
        | inl y ↦ (
          λ m. elim (Memᴰ.append_cases (parent_classes c hr hr.parent_refs) (rw y at m)) [
            | inl i ↦ (hr, head refl, ((eq_iff hr.namespace ns).0 y, to i))
            | inr i ↦ let (q, j, n) = to' i in (q, tail j, n)
          ],
          λ (q, j, n). rw y (elim (Memᴰ.cases_cons j) [
            | inl e ↦ Memᴰ.append_left _ (from (same_concern ns class q hr e n).1)
            | inr k ↦ Memᴰ.append_right _ (from' (q, k, n))
          ]),
        )
        | inr other ↦ (
          λ m. let (q, j, n) = to' (rw other at m) in (q, tail j, n),
          λ (q, j, n). rw other (elim (Memᴰ.cases_cons j) [
            | inl e ↦
                absurd (cc (other, (eq_iff hr.namespace ns).1 (same_concern ns class q hr e n).0))
            | inr k ↦ from' (q, k, n)
          ]),
        )
      ]

  -- A change of a namespace concerns exactly the classes of the gateways of the store that are parents
  -- of some route of the namespace.
  pub ns_impacted_iff :
      IsLawful ext
      → (ns : Namespace) (class : String)
      → Memᴰ class (ns_impacted_gateway_classes (some ns) c)
        ↔ ((hr : HttpRoute) × Memᴰ hr (values c.http_route) × Concerns ns.name class hr)
  unfolding ns_impacted_gateway_classes
  ns_impacted_iff lawful ns class =
      let (to, from) = lawful.unified-mem (route_classes c ns.name (values c.http_route)) class in
      let (to', from') = route_classes_iff ns.name (values c.http_route) class in
      (λ m. to' (to m), λ h. from (from' h))
