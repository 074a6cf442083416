-- ===== src/Cache/GrantIndex/Exists.antt =====
-- What the index answers, against the cached grants.
use bigip_kubernetes_gateway.Base.{
  ℕ, ◌<◌, ◌≤◌, String, ◌≡◌, ◌↔◌, true, false, Option, none, some, arith, sym, ◌∙◌, refl, [],
  or_default,
}
use bigip_kubernetes_gateway.Base.GoMap.{lookup}
use bigip_kubernetes_gateway.External.{External}
use bigip_kubernetes_gateway.Grants.{Counters, FromTo, exists, exists_in, is_positive}
use bigip_kubernetes_gateway.Grants.Counting.{value, counter}
use bigip_kubernetes_gateway.Cache.{SigCache}
use bigip_kubernetes_gateway.Cache.GrantIndex.Totals.{
  total, Granted, Granted-of_total, total_of_Granted,
}
use bigip_kubernetes_gateway.Cache.GrantIndex.Reach.{Reached, Reached-IsIndexed}

exists_in-eq :
    (t : String) (o : Option Counters) → exists_in t o ≡ is_positive (counter t (or_default [] o))
unfolding exists_in counter lookup
exists_in-eq t none = refl
exists_in-eq t (some c) = ground arith

-- `exists` reads the counter as an int8.
exists-eq : (f t : String) (m : FromTo) → exists f t m ≡ is_positive (value f t m)
unfolding exists value
exists-eq f t m = exists_in-eq t (lookup f m)

positive_iff : (n : ℕ) → n < 128 → (is_positive n ≡ true) ↔ (0 < n)
positive_iff n h = ground arith

negative : (n : ℕ) → 128 ≤ n → is_positive n ≡ false
negative n h = ground arith

module _ ⦃ext : External⦄ {c : SigCache} (r : Reached c) (f t : String) where
  -- In every reached store, while a total stays in the positive range of an int8, the index answers
  -- yes exactly for the pairs of keys that some cached grant has.
  pub exists_iff :
      total f t c.reference_grant < 128
      → (exists f t c.ref_from_to ≡ true) ↔ Granted f t c.reference_grant
  exists_iff h =
      let ix = Reached-IsIndexed r in
      let m = c.reference_grant in
      let e : exists f t c.ref_from_to ≡ is_positive (total f t m) =
        rw (← ix.counted f t) (exists-eq f t c.ref_from_to) in
      let (to, from) = positive_iff (total f t m) h in
      (
        λ yes_. Granted-of_total f t m ix.distinct (to (sym e ∙ yes_)),
        λ granted. e ∙ from (total_of_Granted f t m granted),
      )

  -- At 128 and above, the counter reads as negative: the index answers no, though grants are there.
  pub exists-overflow :
      128 ≤ total f t c.reference_grant
      → (exists f t c.ref_from_to ≡ false) × Granted f t c.reference_grant
  exists-overflow h =
      let ix = Reached-IsIndexed r in
      let m = c.reference_grant in
      (
        rw (exists-eq, ix.counted f t) (negative (total f t m) h),
        Granted-of_total f t m ix.distinct (omega arith),
      )
