-- ===== src/As3/Application.antt =====
-- Which resources an application holds.
use bigip_kubernetes_gateway.Base.{
  String, ◌≡◌, refl, ◌∙◌, false, none, some, [], ◌∷◌, arith, ◌==◌, eq_iff, if◌then◌else◌, inl, inr,
  Bool-cases,
}
use bigip_kubernetes_gateway.Base.GoMap.{GoMap, lookup, lookup-insert, HasDistinctKeys}
use bigip_kubernetes_gateway.Json.{Json}
use bigip_kubernetes_gateway.As3.{
  type_and_name, is_skipped, add_resource, add_resources, application_of,
}

-- The resource `n` of the application comes from the key `tn` alone.
abbrev pub IsOnly : String → String → GoMap Json → Type 0
IsOnly tn n [] = Unit
IsOnly tn n ((k, r) ∷ v) =
    ((type_and_name k).1 ≡ n → is_skipped (type_and_name k).0 ≡ false → k ≡ tn) × IsOnly tn n v

lookup-add_resource :
    (n : String) (p : String × String) (r : Json) (a : GoMap Json)
    → lookup n (add_resource p r a)
      ≡ (if is_skipped p.0 then lookup n a else if p.1 == n then some r else lookup n a)
unfolding add_resource
lookup-add_resource n (t, m) r a = elim (Bool-cases (is_skipped t)) [
  | inl y ↦ rw y
  | inr k ↦ rw k (lookup-insert m n r a)
]

-- Keys that do not yield the name leave it alone.
lookup-add_resources_other :
    (tn n : String) (v a : GoMap Json)
    → lookup tn v ≡ none
    → IsOnly tn n v
    → lookup n (add_resources v a) ≡ lookup n a
unfolding add_resources lookup
lookup-add_resources_other tn n [] a h o = refl
lookup-add_resources_other tn n ((k, r) ∷ v) a h (only, o) =
    lookup-add_resources_other tn n v (add_resource (type_and_name k) r a) (ground arith) o
    ∙ ground (
      arith,
      eq_iff k tn,
      eq_iff (type_and_name k).1 n,
      lookup-add_resource n (type_and_name k) r a,
    )

lookup-add_resources :
    (tn : String) (v a : GoMap Json) (r : Json)
    → HasDistinctKeys v
    → IsOnly tn (type_and_name tn).1 v
    → is_skipped (type_and_name tn).0 ≡ false
    → lookup tn v ≡ some r
    → lookup (type_and_name tn).1 (add_resources v a) ≡ some r
unfolding add_resources lookup
lookup-add_resources tn [] a r d o s h = cc
lookup-add_resources tn ((k, u) ∷ v) a r (absent, d) (only, o) s h = elim (Bool-cases (k == tn)) [
  | inl same ↦
      let e : k ≡ tn = (eq_iff k tn).0 same in
      let u_is_r : u ≡ r = ground arith in
      lookup-add_resources_other tn (type_and_name tn).1 v _ (rw e at absent) o
      ∙ rw (e, u_is_r)
          (ground (
            arith,
            eq_iff (type_and_name tn).1 (type_and_name tn).1,
            lookup-add_resource (type_and_name tn).1 (type_and_name tn) r a,
          ))
  | inr other ↦ lookup-add_resources tn v _ r d o s (rw other at h)
]

-- A resource whose type is not left out, and whose name no other key of its folder yields, is in the
-- application under that name.
pub lookup-application_of :
    (tn : String) (v : GoMap Json) (r : Json)
    → HasDistinctKeys v
    → IsOnly tn (type_and_name tn).1 v
    → is_skipped (type_and_name tn).0 ≡ false
    → lookup tn v ≡ some r
    → lookup (type_and_name tn).1 (application_of v) ≡ some r
unfolding application_of
lookup-application_of tn v r d o s h = lookup-add_resources tn v _ r d o s h
