-- ===== src/As3/Declaration.antt =====
-- Which tenants a declaration has.
use bigip_kubernetes_gateway.Base.{
  String, eq_iff, ◌≡◌, refl, ◌∙◌, eq_refl, false, none, some, [], ◌∷◌, ◌==◌, inl, inr, Bool-cases,
}
use bigip_kubernetes_gateway.Base.GoMap.{
  GoMap, lookup, lookup-insert, HasDistinctKeys, insert-HasDistinctKeys,
}
use bigip_kubernetes_gateway.Json.{Json, text, object, members}
use bigip_kubernetes_gateway.As3.{add_folders, tenant_of, add_partitions, declaration_of}

add_partitions-HasDistinctKeys :
    (cfgs : GoMap (GoMap (GoMap Json))) (d : GoMap Json)
    → HasDistinctKeys d
    → HasDistinctKeys (add_partitions cfgs d)
unfolding add_partitions
add_partitions-HasDistinctKeys [] d h = h
add_partitions-HasDistinctKeys ((p, cfg) ∷ cfgs) d h =
    add_partitions-HasDistinctKeys cfgs _ (insert-HasDistinctKeys p _ d h)

pub declaration_of-HasDistinctKeys :
    (cfgs : GoMap (GoMap (GoMap Json))) → HasDistinctKeys (declaration_of cfgs)
unfolding declaration_of lookup
declaration_of-HasDistinctKeys cfgs = add_partitions-HasDistinctKeys cfgs _ (refl, (refl, tt))

lookup-add_partitions :
    (k : String) (cfgs : GoMap (GoMap (GoMap Json))) (d : GoMap Json)
    → lookup k cfgs ≡ none
    → lookup k (add_partitions cfgs d) ≡ lookup k d
unfolding add_partitions lookup
lookup-add_partitions k [] d h = refl
lookup-add_partitions k ((p, cfg) ∷ cfgs) d h = elim (Bool-cases (p == k)) [
  | inl y ↦ cc (rw y at h)
  | inr n ↦ lookup-add_partitions k cfgs _ (rw n at h) ∙ (lookup-insert p k _ d ∙ rw n refl)
]

-- What no partition is called is no tenant.
pub lookup-declaration_of_other :
    (k : String) (cfgs : GoMap (GoMap (GoMap Json)))
    → lookup k cfgs ≡ none
    → ("class" == k) ≡ false
    → ("schemaVersion" == k) ≡ false
    → lookup k (declaration_of cfgs) ≡ none
unfolding declaration_of lookup
lookup-declaration_of_other k cfgs h c s = lookup-add_partitions k cfgs _ h ∙ rw (c, s) refl

-- A partition is a tenant.
lookup-add_folders :
    (k : String) (cfg : GoMap (GoMap Json)) (d : GoMap Json)
    → lookup k cfg ≡ none
    → lookup k (add_folders cfg d) ≡ lookup k d
unfolding add_folders lookup
lookup-add_folders k [] d h = refl
lookup-add_folders k ((p, v) ∷ cfg) d h = elim (Bool-cases (p == k)) [
  | inl y ↦ cc (rw y at h)
  | inr n ↦ lookup-add_folders k cfg _ (rw n at h) ∙ (lookup-insert p k _ d ∙ rw n refl)
]

pub lookup-tenant_of_class :
    (cfg : GoMap (GoMap Json))
    → lookup "class" cfg ≡ none
    → lookup "class" (tenant_of cfg) ≡ some (text "Tenant")
unfolding tenant_of lookup
lookup-tenant_of_class cfg h = lookup-add_folders "class" cfg _ h

-- The one partition of a declaration.
pub lookup-declaration_of_one :
    (p : String) (cfg : GoMap (GoMap Json))
    → lookup p (declaration_of ((p, cfg) ∷ [])) ≡ some (object (members (tenant_of cfg)))
unfolding declaration_of add_partitions
lookup-declaration_of_one p cfg = lookup-insert p p _ _ ∙ rw (eq_refl p) refl

-- What the folders of a partition are called leaves the class of its tenant alone.
abbrev pub IsPlain : String × GoMap (GoMap Json) → Type 0
IsPlain (p, cfg) = lookup "class" cfg ≡ none

-- In a map, the partition of a name is the tenant of that name.
lookup-add_partitions_found :
    (k : String) (cfgs : GoMap (GoMap (GoMap Json))) (f : GoMap (GoMap Json)) (d : GoMap Json)
    → HasDistinctKeys cfgs
    → lookup k cfgs ≡ some f
    → lookup k (add_partitions cfgs d) ≡ some (object (members (tenant_of f)))
unfolding add_partitions lookup
lookup-add_partitions_found k [] f d h e = cc e
lookup-add_partitions_found k ((p, cfg) ∷ cfgs) f d (absent, h) e = elim (Bool-cases (p == k)) [
  | inl y ↦
      let same : cfg ≡ f = cc (rw y at e) in
      lookup-add_partitions k cfgs _ (rw ((eq_iff p k).0 y) at absent)
      ∙ (lookup-insert p k _ d ∙ rw (y, same) refl)
  | inr n ↦ lookup-add_partitions_found k cfgs f _ h (rw n at e)
]

pub lookup-declaration_of :
    (k : String) (cfgs : GoMap (GoMap (GoMap Json))) (f : GoMap (GoMap Json))
    → HasDistinctKeys cfgs
    → lookup k cfgs ≡ some f
    → lookup k (declaration_of cfgs) ≡ some (object (members (tenant_of f)))
unfolding declaration_of
lookup-declaration_of k cfgs f h e = lookup-add_partitions_found k cfgs f _ h e

-- The tenant of a partition without folders.
pub tenant_of-nil : tenant_of [] ≡ ("class", text "Tenant") ∷ []
unfolding tenant_of add_folders
tenant_of-nil = refl
