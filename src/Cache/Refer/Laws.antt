-- ===== src/Cache/Refer/Laws.antt =====
-- What CanRefer answers in a reached store, against the cached grants.
use bigip_kubernetes_gateway.Base.{
  ◌<◌, String, ◌≡◌, ◌↔◌, ◌⊎◌, Bool, true, false, not, ◌||◌, none, some, arith, ◌==◌, eq_iff,
  if◌then◌else◌,
}
use bigip_kubernetes_gateway.Api.{Object, gateway_group}
use bigip_kubernetes_gateway.External.{External}
use bigip_kubernetes_gateway.Grants.{stringify_rg_from, stringify_rg_to}
use bigip_kubernetes_gateway.Cache.{SigCache}
use bigip_kubernetes_gateway.Cache.GrantIndex.Totals.{total, Granted}
use bigip_kubernetes_gateway.Cache.GrantIndex.Reach.{Reached}
use bigip_kubernetes_gateway.Cache.GrantIndex.Exists.{exists_iff}
use bigip_kubernetes_gateway.Cache.Refer.{grant_from, grant_to, can_refer}

-- The conditions under which the code allows the reference, on the two answers of the index.
pub allowed_iff :
    (a b g : String) (x y : Bool) (P Q : Type 0)
    → (x ≡ true) ↔ P
    → (y ≡ true) ↔ Q
    → ((if a == b then true else if not (g == gateway_group) then false else x || y) ≡ true)
      ↔ ((a ≡ b) ⊎ ((g ≡ gateway_group) × (P ⊎ Q)))
allowed_iff a b g x y P Q p q = ground (arith, eq_iff a b, eq_iff g gateway_group, p, q)

module _ ⦃ext : External⦄ where
  -- The keys of the source, of the target, and of all targets of its kind.
  unfoldable pub source_key : Object → String
  source_key from = stringify_rg_from (grant_from from)

  unfoldable pub target_key : Object → String
  target_key to = stringify_rg_to to.namespace (grant_to to (some to.name))

  unfoldable pub kind_key : Object → String
  kind_key to = stringify_rg_to to.namespace (grant_to to none)

  -- In every reached store, while the totals of the two pairs of keys stay below 128, a reference is
  -- allowed exactly inside a namespace, or from the gateway's group by a cached grant that has the
  -- source's key and the key of the target or of all targets of its kind.
  pub can_refer_iff :
      {c : SigCache} (r : Reached c) (from to : Object)
      → total (source_key from) (target_key to) c.reference_grant < 128
      → total (source_key from) (kind_key to) c.reference_grant < 128
      → (can_refer from to c ≡ true) ↔ (
          (from.namespace ≡ to.namespace)
          ⊎ ((from.group ≡ gateway_group)
              × (Granted (source_key from) (target_key to) c.reference_grant
                  ⊎ Granted (source_key from) (kind_key to) c.reference_grant)))
  unfolding can_refer source_key target_key kind_key
  can_refer_iff r from to h k =
      allowed_iff from.namespace to.namespace from.group _ _ _ _ (exists_iff r _ _ h)
        (exists_iff r _ _ k)
