-- ===== src/Cache/Tests.antt =====
-- A store with one reference grant, and one whose grant fills a counter.
use mathlib.Core.List.Memᴰ
use mathlib.Core.List.Memᴰ.{Memᴰ}
use bigip_kubernetes_gateway.Base.{
  ℕ, zero, suc, ◌*◌, ◌<◌, ◌≤◌, String, ◌≡◌, refl, ap, ◌↔◌, ◌⊎◌, true, false, none, some, List, [],
  ◌∷◌, map, arith, inl, inr, Bool-cases, ◌==◌, eq_iff,
}
use bigip_kubernetes_gateway.Base.GoMap.{insert, lookup}
use bigip_kubernetes_gateway.Base.Lists.{count, length}
use bigip_kubernetes_gateway.Base.Text.{join}
use bigip_kubernetes_gateway.Api.{
  Object, GrantFrom, GrantTo, ReferenceGrant, gateway_group, core_group,
}
use bigip_kubernetes_gateway.External.{External}
use bigip_kubernetes_gateway.External.Sample.{sample}
use bigip_kubernetes_gateway.External.Sample.Lawful.{sample-IsLawful}
use bigip_kubernetes_gateway.Cache.Refer.Names.{name, group}
use bigip_kubernetes_gateway.Grants.{exists, stringify_rg_from, stringify_rg_to}
use bigip_kubernetes_gateway.Grants.Counting.{weight, from_keys, to_keys}
use bigip_kubernetes_gateway.Cache.{SigCache, empty_cache, set_reference_grant}
use bigip_kubernetes_gateway.Cache.GrantIndex.Totals.{total, Granted}
use bigip_kubernetes_gateway.Cache.GrantIndex.Reach.{Reached, Update, apply, Fits}
use bigip_kubernetes_gateway.Cache.GrantIndex.Exists.{exists_iff, exists-overflow}
use bigip_kubernetes_gateway.Cache.Refer.{can_refer, grant_from, grant_to}
use bigip_kubernetes_gateway.Cache.Refer.Keys.{IsFrom, IsTo}
use bigip_kubernetes_gateway.Cache.Refer.Objects.{
  IsNamed, AllNamed, IsObject, Allows, may_refer_objects_iff,
}

instance external : External
external = sample

count-le-length : (a : String) (l : List String) → count a l ≤ length l
unfolding count
count-le-length a [] = omega arith
count-le-length a (x ∷ l) = ground (arith, count-le-length a l)

length-map {ℓ} : {A : Type ℓ} (f : A → String) (l : List A) → length (map f l) ≡ length l
length-map f [] = refl
length-map f (x ∷ l) = rw (length-map f l)

product_mono : (a b c d : ℕ) → a ≤ c → b ≤ d → a * b ≤ c * d
product_mono a b c d h k = grind arith

weight-le : (f t : String) (rg : ReferenceGrant) → weight f t rg ≤ length rg.from * length rg.to
unfolding weight from_keys to_keys
weight-le f t rg =
    product_mono _ _ _ _ (rw length-map at (count-le-length f (map stringify_rg_from rg.from)))
      (rw length-map at (count-le-length t (map (stringify_rg_to rg.namespace) rg.to)))

abbrev routes : GrantFrom
routes = record { group = gateway_group; kind = "HTTPRoute"; namespace = "front" }

abbrev web : GrantTo
web = record { group = core_group; kind = "Service"; name = some "web" }

abbrev grant : ReferenceGrant
grant = record { namespace = "back"; name = "grant"; from = routes ∷ []; to = web ∷ [] }

abbrev granted : SigCache
granted = set_reference_grant (some grant) empty_cache

granted-Fits : Fits granted
unfolding set_reference_grant insert
granted-Fits f t = omega (arith, weight-le f t grant)

granted_Reached : Reached granted
unfolding apply
granted_Reached = Reached.update (Update.grant_set (some grant)) Reached.start refl granted-Fits

abbrev from_key : String
from_key = stringify_rg_from routes

abbrev to_key : String
to_key = stringify_rg_to "back" web

granted_small : (f t : String) → total f t granted.reference_grant < 128
unfolding set_reference_grant insert
granted_small f t = omega (arith, weight-le f t grant)

exists_example :
    (exists from_key to_key granted.ref_from_to ≡ true)
    ↔ Granted from_key to_key granted.reference_grant
exists_example = exists_iff granted_Reached from_key to_key (granted_small from_key to_key)

abbrev route : Object
route = record { namespace = "front"; name = "route"; group = gateway_group; kind = "HTTPRoute" }

abbrev web_service : Object
web_service = record { namespace = "back"; name = "web"; group = core_group; kind = "Service" }

route_named : IsObject route
route_named = record {
  group = group refl;
  kind = name refl;
  namespace = name refl;
  name = name refl;
}

web_named : IsObject web_service
web_named = record { group = group refl; kind = name refl; namespace = name refl; name = name refl }

IsFrom-named : (f : GrantFrom) → Memᴰ f (routes ∷ []) → IsFrom f
IsFrom-named f m =
    rw (Memᴰ.eq_of_singleton m)
      (record { group = group refl; kind = name refl; namespace = name refl })

IsTo-named : (t : GrantTo) → Memᴰ t (web ∷ []) → IsTo t
IsTo-named t m =
    rw (Memᴰ.eq_of_singleton m) (record { group = group refl; kind = name refl; name = name refl })

grant-IsNamed : (rg : ReferenceGrant) → grant ≡ rg → IsNamed rg
grant-IsNamed rg e =
    rw (← e) (record { namespace = name refl; from = IsFrom-named; to = IsTo-named })

granted_named : AllNamed granted.reference_grant
unfolding set_reference_grant insert lookup external join
granted_named k rg found = elim (Bool-cases ("back/grant" == k)) [
  | inl y ↦ grant-IsNamed rg (cc (rw y at found))
  | inr n ↦ cc (rw n at found)
]

may_refer_objects_example : (can_refer route web_service granted ≡ true) ↔ (
    (route.namespace ≡ web_service.namespace)
    ⊎ ((route.group ≡ gateway_group)
        × (Allows granted.reference_grant
              (grant_from route)
              "back"
              (grant_to web_service (some "web"))
            ⊎ Allows granted.reference_grant
                (grant_from route)
                "back"
                (grant_to web_service none))))
unfolding external
may_refer_objects_example =
    may_refer_objects_iff sample-IsLawful granted_Reached route web_service granted_named
      route_named web_named (granted_small _ _) (granted_small _ _)

-- Another grant that names its target 128 times.
abbrev copies : ℕ → List GrantTo
copies zero = []
copies (suc n) = web ∷ copies n

length-copies : (n : ℕ) → length (copies n) ≡ n
length-copies zero = refl
length-copies (suc n) = ap suc (length-copies n)

count-copies : (n : ℕ) → count to_key (map (stringify_rg_to "back") (copies n)) ≡ n
unfolding count
count-copies zero = refl
count-copies (suc n) = ground (arith, eq_iff to_key to_key, count-copies n)

abbrev full_grant : ReferenceGrant
full_grant = record { namespace = "back"; name = "grant"; from = routes ∷ []; to = copies 128 }

abbrev full : SigCache
full = set_reference_grant (some full_grant) empty_cache

full-Fits : Fits full
unfolding set_reference_grant insert
full-Fits f t = omega (arith, weight-le f t full_grant, length-copies 128)

full_Reached : Reached full
unfolding apply
full_Reached = Reached.update (Update.grant_set (some full_grant)) Reached.start refl full-Fits

full_total : 128 ≤ total from_key to_key full.reference_grant
unfolding set_reference_grant insert weight from_keys to_keys count
full_total = ground (arith, eq_iff from_key from_key, count-copies 128)

exists_overflow_example :
    (exists from_key to_key full.ref_from_to ≡ false) × Granted from_key to_key full.reference_grant
exists_overflow_example = exists-overflow full_Reached from_key to_key full_total
