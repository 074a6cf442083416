-- ===== src/Cache/Refer/Objects.antt =====
-- CanRefer in terms of the cached grants themselves: the keys of the index are gone.
use mathlib.Core.List.Memᴰ
use mathlib.Core.List.Memᴰ.{Memᴰ}
use bigip_kubernetes_gateway.Base.{◌<◌, String, ◌≡◌, ◌↔◌, ◌⊎◌, true, none, some, inl, inr}
use bigip_kubernetes_gateway.Base.GoMap.{GoMap, lookup}
use bigip_kubernetes_gateway.Api.{Object, GrantFrom, GrantTo, ReferenceGrant, gateway_group}
use bigip_kubernetes_gateway.External.{External, IsLawful}
use bigip_kubernetes_gateway.Grants.{stringify_rg_from, stringify_rg_to}
use bigip_kubernetes_gateway.Grants.Counting.{from_keys, to_keys}
use bigip_kubernetes_gateway.Cache.{SigCache}
use bigip_kubernetes_gateway.Cache.GrantIndex.Totals.{total, Granted}
use bigip_kubernetes_gateway.Cache.GrantIndex.Reach.{Reached}
use bigip_kubernetes_gateway.Cache.Refer.{grant_from, grant_to, can_refer}
use bigip_kubernetes_gateway.Cache.Refer.Keys.{
  IsName, IsGroup, IsFrom, IsTo, stringify_rg_from-inj, stringify_rg_to-inj,
}
use bigip_kubernetes_gateway.Cache.Refer.Laws.{source_key, target_key, kind_key, can_refer_iff}

-- A grant and an object with names that Kubernetes admits.
pub record IsNamed (rg : ReferenceGrant) : Type 0 where
  pub namespace : IsName rg.namespace
  pub from : (f : GrantFrom) → Memᴰ f rg.from → IsFrom f
  pub to : (t : GrantTo) → Memᴰ t rg.to → IsTo t

abbrev pub AllNamed : GoMap ReferenceGrant → Type 0
AllNamed m = (k : String) (rg : ReferenceGrant) → lookup k m ≡ some rg → IsNamed rg

pub record IsObject (o : Object) : Type 0 where
  pub group : IsGroup o.group
  pub kind : IsName o.kind
  pub namespace : IsName o.namespace
  pub name : IsName o.name

-- Some cached grant of a namespace has the source and the target.
abbrev pub Allows : GoMap ReferenceGrant → GrantFrom → String → GrantTo → Type 0
Allows m f ns t =
    (k : String) × (rg : ReferenceGrant) × (lookup k m ≡ some rg)
    × (rg.namespace ≡ ns)
    × Memᴰ f rg.from
    × Memᴰ t rg.to

in_cases : {P Q P' Q' G N : Type 0} → (P → P') → (Q → Q') → N ⊎ (G × (P ⊎ Q)) → N ⊎ (G × (P' ⊎ Q'))
in_cases p q (inl n) = inl n
in_cases p q (inr (g, inl x)) = inr (g, inl (p x))
in_cases p q (inr (g, inr y)) = inr (g, inr (q y))

module _ ⦃ext : External⦄ (lawful : IsLawful ext) where
  Granted-iff :
      (m : GoMap ReferenceGrant) (f : GrantFrom) (ns : String) (t : GrantTo)
      → AllNamed m
      → IsFrom f
      → IsName ns
      → IsTo t
      → Granted (stringify_rg_from f) (stringify_rg_to ns t) m ↔ Allows m f ns t
  unfolding from_keys to_keys
  Granted-iff m f ns t named hf hn ht = (
    λ (k, rg, found, i, j).
        let n = named k rg found in
        let (g, mg, eg) = Memᴰ.of_map stringify_rg_from rg.from i in
        let (u, mu, eu) = Memᴰ.of_map (stringify_rg_to rg.namespace) rg.to j in
        let same = stringify_rg_from-inj lawful g f (n.from g mg) hf eg in
        let (same_ns, same_to) =
          stringify_rg_to-inj lawful rg.namespace ns u t n.namespace hn (n.to u mu) ht eu in
        (k, rg, found, same_ns, rw (← same) mg, rw (← same_to) mu),
    λ (k, rg, found, e, i, j). (
      k,
      rg,
      found,
      Memᴰ.map stringify_rg_from i,
      rw (← e) (Memᴰ.map (stringify_rg_to rg.namespace) j),
    ),
  )

  -- In every reached store whose grants and objects have the names that Kubernetes admits, while the
  -- totals stay below 128, a reference is allowed exactly inside a namespace, or from the gateway's
  -- group if some cached grant of the target's namespace has the source, and has the target or all
  -- targets of its kind.
  pub may_refer_objects_iff :
      {c : SigCache} (r : Reached c) (from to : Object)
      → AllNamed c.reference_grant
      → IsObject from
      → IsObject to
      → total (source_key from) (target_key to) c.reference_grant < 128
      → total (source_key from) (kind_key to) c.reference_grant < 128
      → (can_refer from to c ≡ true) ↔ (
          (from.namespace ≡ to.namespace)
          ⊎ ((from.group ≡ gateway_group)
              × (Allows c.reference_grant
                    (grant_from from)
                    to.namespace
                    (grant_to to (some to.name))
                  ⊎ Allows c.reference_grant (grant_from from) to.namespace (grant_to to none))))
  unfolding source_key target_key kind_key
  may_refer_objects_iff {c} r from to named hf ht b b' =
      let from_ok : IsFrom (grant_from from) = record {
        group = hf.group;
        kind = hf.kind;
        namespace = hf.namespace;
      } in
      let to_ok : IsTo (grant_to to (some to.name)) = record {
        group = ht.group;
        kind = ht.kind;
        name = ht.name;
      } in
      let all_ok : IsTo (grant_to to none) = record {
        group = ht.group;
        kind = ht.kind;
        name = tt;
      } in
      let m = c.reference_grant in
      let (fwd, back) = can_refer_iff r from to b b' in
      let (one, one') =
        Granted-iff m (grant_from from) to.namespace (grant_to to (some to.name)) named from_ok
          ht.namespace to_ok in
      let (all, all') =
        Granted-iff m (grant_from from) to.namespace (grant_to to none) named from_ok ht.namespace
          all_ok in
      (λ e. in_cases one all (fwd e), λ h. back (in_cases one' all' h))
