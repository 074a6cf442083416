-- ===== src/Deployer/Queues.antt =====
-- What the last of the waiting requests says.
use bigip_kubernetes_gateway.Base.{
  String, ◌≡◌, refl, ap, true, eq_refl, ◌∙◌, Option, some, List, [], ◌∷◌, ◌++◌,
}
use bigip_kubernetes_gateway.Base.GoMap.{GoMap, lookup}
use bigip_kubernetes_gateway.Json.{Json, text, object, members, fields}
use bigip_kubernetes_gateway.Deployer.{DeployRequest, merge_requests, is_tenant, is_text, has_class}
use bigip_kubernetes_gateway.Deployer.Rounds.{AllDistinct}
use bigip_kubernetes_gateway.Deployer.Delivery.{latest, merge_requests-eq-latest}

latest_last :
    (k : String) (t : Json) (ms : List DeployRequest) (q : DeployRequest) (o : Option Json)
    → lookup k q.declaration ≡ some t
    → latest k o (ms ++ q ∷ []) ≡ some t
latest_last k t [] q o e = rw e refl
latest_last k t (m ∷ ms) q o e = latest_last k t ms q _ e

-- The merged requests have what the last of them says.
pub merged_last :
    (k : String) (t : Json) (old : List DeployRequest) (q r : DeployRequest)
    (ms : List DeployRequest)
    → old ++ q ∷ [] ≡ r ∷ ms
    → AllDistinct ms
    → lookup k q.declaration ≡ some t
    → lookup k (merge_requests r.declaration ms) ≡ some t
unfolding merge_requests
merged_last k t [] q r ms e d h =
    let same : q ≡ r = cc in let last : [] ≡ ms = cc in rw (← same, ← last) h
merged_last k t (o ∷ old) q r ms e d h =
    let rest : old ++ q ∷ [] ≡ ms = cc in
    merge_requests-eq-latest k r.declaration ms d ∙ rw (← rest) (latest_last k t old q _ h)

pub rest_distinct :
    (l : List DeployRequest) (r : DeployRequest) (ms : List DeployRequest)
    → l ≡ r ∷ ms
    → AllDistinct l
    → AllDistinct ms
rest_distinct l r ms e h = (rw e at h).1

fields-members : (m : GoMap Json) → fields (members m) ≡ m
fields-members [] = refl
fields-members ((k, v) ∷ m) = ap (λ r. (k, v) ∷ r) (fields-members m)

-- A map whose class is "Tenant" passes the deployer's test.
pub is_tenant-object :
    (m : GoMap Json)
    → lookup "class" m ≡ some (text "Tenant")
    → is_tenant (object (members m)) ≡ true
unfolding is_tenant has_class is_text
is_tenant-object m e = rw (fields-members m, e) (eq_refl "Tenant")
