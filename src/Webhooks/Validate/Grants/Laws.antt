-- ===== src/Webhooks/Validate/Grants/Laws.antt =====
-- What the admission check of a reference answers, against the listed grants.
use mathlib.Core.List.Memᴰ
use mathlib.Core.List.Memᴰ.{Memᴰ, head, tail}
use bigip_kubernetes_gateway.Base.{
  String, ◌≡◌, refl, sym, ap, ◌↔◌, ◌⊎◌, Bool, true, ◌&&◌, Option, none, some, List, [], ◌∷◌, arith,
  eq_iff, inl, inr, Bool-cases,
}
use bigip_kubernetes_gateway.Api.{Object, GrantFrom, GrantTo, ReferenceGrant, gateway_group}
use bigip_kubernetes_gateway.Cache.Refer.{grant_from, grant_to}
use bigip_kubernetes_gateway.Cache.Refer.Laws.{allowed_iff}
use bigip_kubernetes_gateway.Webhooks.Validate.Grants.{
  same_from, same_name, same_to, has_from, has_to, rg_exists, can_refer,
}

and_iff : (a b : Bool) → (a && b ≡ true) ↔ ((a ≡ true) × (b ≡ true))
and_iff a b = ground arith

same_name_iff : (a b : Option String) → (same_name a b ≡ true) ↔ (a ≡ b)
unfolding same_name
same_name_iff none none = (λ e. refl, λ e. refl)
same_name_iff none (some b) = (λ e. cc, λ e. cc)
same_name_iff (some a) none = (λ e. cc, λ e. cc)
same_name_iff (some a) (some b) = (λ e. ap some ((eq_iff a b).0 e), λ e. (eq_iff a b).1 (cc))

same_from_iff : (a b : GrantFrom) → (same_from a b ≡ true) ↔ (a ≡ b)
unfolding same_from
same_from_iff a b = (
  λ e.
      let g = (eq_iff a.group b.group).0 (ground (arith, e)) in
      let k = (eq_iff a.kind b.kind).0 (ground (arith, e)) in
      let n = (eq_iff a.namespace b.namespace).0 (ground (arith, e)) in cc,
  λ e. rw e (
      ground (arith, eq_iff b.group b.group, eq_iff b.kind b.kind, eq_iff b.namespace b.namespace)),
)

same_to_iff : (a b : GrantTo) → (same_to a b ≡ true) ↔ (a ≡ b)
unfolding same_to
same_to_iff a b = (
  λ e.
      let g = (eq_iff a.group b.group).0 (ground (arith, e)) in
      let k = (eq_iff a.kind b.kind).0 (ground (arith, e)) in
      let n = (same_name_iff a.name b.name).0 (ground (arith, e)) in cc,
  λ e.
      rw e
        (ground (arith, eq_iff b.group b.group, eq_iff b.kind b.kind, same_name_iff b.name b.name)),
)

has_from_iff : (f : GrantFrom) (l : List GrantFrom) → (has_from f l ≡ true) ↔ Memᴰ f l
unfolding has_from
has_from_iff f [] = (λ e. cc, λ m. absurd (Memᴰ.not-nil m))
has_from_iff f (g ∷ l) = elim (Bool-cases (same_from g f)) [
  | inl y ↦ (λ e. head (sym ((same_from_iff g f).0 y)), λ m. rw y refl)
  | inr n ↦ (
    λ e. tail ((has_from_iff f l).0 (rw n at e)),
    λ m. elim (Memᴰ.cases_cons m) [
      | inl e ↦ absurd (cc (n, (same_from_iff g f).1 (sym e)))
      | inr k ↦ rw n ((has_from_iff f l).1 k)
    ],
  )
]

has_to_iff : (t : GrantTo) (l : List GrantTo) → (has_to t l ≡ true) ↔ Memᴰ t l
unfolding has_to
has_to_iff f [] = (λ e. cc, λ m. absurd (Memᴰ.not-nil m))
has_to_iff f (g ∷ l) = elim (Bool-cases (same_to g f)) [
  | inl y ↦ (λ e. head (sym ((same_to_iff g f).0 y)), λ m. rw y refl)
  | inr n ↦ (
    λ e. tail ((has_to_iff f l).0 (rw n at e)),
    λ m. elim (Memᴰ.cases_cons m) [
      | inl e ↦ absurd (cc (n, (same_to_iff g f).1 (sym e)))
      | inr k ↦ rw n ((has_to_iff f l).1 k)
    ],
  )
]

-- Some listed grant has the source and the target; its own namespace is not looked at.
abbrev pub SomeGrant : List ReferenceGrant → GrantFrom → GrantTo → Type 0
SomeGrant rgs f t = (rg : ReferenceGrant) × Memᴰ rg rgs × Memᴰ f rg.from × Memᴰ t rg.to

later :
    {rg : ReferenceGrant} {rgs : List ReferenceGrant} {f : GrantFrom} {t : GrantTo}
    → SomeGrant rgs f t
    → SomeGrant (rg ∷ rgs) f t
later (g, m, i, j) = (g, tail m, i, j)

pub rg_exists_iff :
    (rgs : List ReferenceGrant) (f : GrantFrom) (t : GrantTo)
    → (rg_exists rgs f t ≡ true) ↔ SomeGrant rgs f t
unfolding rg_exists
rg_exists_iff [] f t = (λ e. cc, λ g. absurd (Memᴰ.not-nil g.1))
rg_exists_iff (rg ∷ rgs) f t =
    let (to, from) = and_iff (has_from f rg.from) (has_to t rg.to) in
    elim (Bool-cases (has_from f rg.from && has_to t rg.to)) [
      | inl y ↦
          let (hf, ht) = to y in
          (
            λ e. (rg, head refl, (has_from_iff f rg.from).0 hf, (has_to_iff t rg.to).0 ht),
            λ g. rw y refl,
          )
      | inr n ↦ (
        λ e. later ((rg_exists_iff rgs f t).0 (rw n at e)),
        λ (g, m, i, j). elim (Memᴰ.cases_cons m) [
          | inl e ↦
              let hf = (has_from_iff f rg.from).1 (rw e at i) in
              let ht = (has_to_iff t rg.to).1 (rw e at j) in absurd (cc (n, from (hf, ht)))
          | inr k ↦ rw n ((rg_exists_iff rgs f t).1 (g, k, i, j))
        ],
      )
    ]

-- The admission check allows a reference exactly inside a namespace, or from the gateway's group if
-- some listed grant, of whatever namespace, has the source and has the target or all of its kind.
pub may_refer_iff :
    (rgs : List ReferenceGrant) (from to : Object)
    → (can_refer rgs from to ≡ true) ↔ (
        (from.namespace ≡ to.namespace)
        ⊎ ((from.group ≡ gateway_group)
            × (SomeGrant rgs (grant_from from) (grant_to to (some to.name))
                ⊎ SomeGrant rgs (grant_from from) (grant_to to none))))
unfolding can_refer
may_refer_iff rgs from to =
    allowed_iff from.namespace to.namespace from.group _ _ _ _ (rg_exists_iff rgs _ _)
      (rg_exists_iff rgs _ _)
