-- ===== src/Cache/Laws.antt =====
-- The accessors of the grants.
use bigip_kubernetes_gateway.Base.{
  String, ◌≡◌, ◌∙◌, eq_refl, refl, inl, inr, Option-cases, none, some,
}
use bigip_kubernetes_gateway.Base.GoMap.{lookup, lookup-insert, lookup-delete}
use bigip_kubernetes_gateway.Api.{ReferenceGrant}
use bigip_kubernetes_gateway.External.{External}
use bigip_kubernetes_gateway.Cache.{
  SigCache, object_key, get_reference_grant, set_reference_grant, unset_found,
  unset_reference_grant,
}

module _ ⦃ext : External⦄ (c : SigCache) where
  pub get-set_reference_grant :
      (rg : ReferenceGrant)
      → get_reference_grant (object_key rg.namespace rg.name) (set_reference_grant (some rg) c)
        ≡ some rg
  unfolding get_reference_grant set_reference_grant
  get-set_reference_grant rg = lookup-insert _ _ rg c.reference_grant ∙ rw eq_refl refl

  pub get-unset_reference_grant :
      (k : String) → get_reference_grant k (unset_reference_grant k c) ≡ none
  unfolding get_reference_grant unset_reference_grant unset_found
  get-unset_reference_grant k = elim (Option-cases (lookup k c.reference_grant)) [
    | inl missing ↦ rw missing missing
    | inr (rg, found) ↦ rw found (lookup-delete k k c.reference_grant ∙ rw eq_refl refl)
  ]
