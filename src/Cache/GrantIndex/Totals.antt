-- ===== src/Cache/GrantIndex/Totals.antt =====
-- The total that the cached grants give to a pair of keys, and what an update of the map does to it.
use mathlib.Core.List.Memᴰ.{Memᴰ}
use native.Mathlib.Decide.{dec_lt}
use bigip_kubernetes_gateway.Base.{
  eq_refl, ℕ, ◌+◌, ◌*◌, ◌≤◌, ◌<◌, String, ◌≡◌, Option, none, some, [], ◌∷◌, arith, inl, inr, ◌==◌,
  eq_iff, Bool-cases,
}
use bigip_kubernetes_gateway.Base.GoMap.{
  GoMap, lookup, insert, delete, HasDistinctKeys, delete_absent,
}
use bigip_kubernetes_gateway.Base.Lists.{count, Mem_of_count-pos, count-pos_of_Mem}
use bigip_kubernetes_gateway.Api.{ReferenceGrant}
use bigip_kubernetes_gateway.External.{External}
use bigip_kubernetes_gateway.Grants.Counting.{weight, from_keys, to_keys}

product_pos : (a b n : ℕ) → 0 < a → 0 < b → a * b ≤ n → 0 < n
product_pos a b n h k le = grind arith

module _ ⦃ext : External⦄ (f t : String) where
  abbrev pub total : GoMap ReferenceGrant → ℕ
  total [] = 0
  total ((k, rg) ∷ m) = weight f t rg + total m

  abbrev pub weight_of : Option ReferenceGrant → ℕ
  weight_of none = 0
  weight_of (some rg) = weight f t rg

  pub total-insert :
      (k : String) (rg : ReferenceGrant) (m : GoMap ReferenceGrant)
      → total (insert k rg m) + weight_of (lookup k m) ≡ total m + weight f t rg
  unfolding insert lookup
  total-insert k rg [] = omega arith
  total-insert k rg ((j, v) ∷ m) = elim (Bool-cases (j == k)) [
    | inl same ↦ rw same (omega arith)
    | inr other ↦ rw other (omega (arith, total-insert k rg m))
  ]

  pub total-delete :
      (k : String) (m : GoMap ReferenceGrant)
      → HasDistinctKeys m
      → total (delete k m) + weight_of (lookup k m) ≡ total m
  unfolding delete lookup
  total-delete k [] h = omega arith
  total-delete k ((j, v) ∷ m) (absent, h) = elim (Bool-cases (j == k)) [
    | inl same ↦ rw (same, delete_absent k m (rw ((eq_iff j k).0 same) at absent)) (omega arith)
    | inr other ↦ rw other (omega (arith, total-delete k m h))
  ]

  pub weight-le-total : (k : String) (m : GoMap ReferenceGrant) → weight_of (lookup k m) ≤ total m
  unfolding lookup
  weight-le-total k [] = omega arith
  weight-le-total k ((j, v) ∷ m) = elim (Bool-cases (j == k)) [
    | inl same ↦ rw same (omega arith)
    | inr other ↦ rw other (omega (arith, weight-le-total k m))
  ]

  weight-pos :
      (rg : ReferenceGrant) → 0 < weight f t rg → Memᴰ f (from_keys rg) × Memᴰ t (to_keys rg)
  unfolding weight
  weight-pos rg h = (
    Mem_of_count-pos f (from_keys rg) (grind arith),
    Mem_of_count-pos t (to_keys rg) (grind arith),
  )

  -- A cached grant with both keys.
  abbrev pub Granted : GoMap ReferenceGrant → Type 0
  Granted m =
      (k : String) × (rg : ReferenceGrant) × (lookup k m ≡ some rg)
      × Memᴰ f (from_keys rg)
      × Memᴰ t (to_keys rg)

  pub Granted-of_total : (m : GoMap ReferenceGrant) → HasDistinctKeys m → 0 < total m → Granted m
  unfolding lookup
  Granted-of_total [] d h = absurd (omega arith)
  Granted-of_total ((j, v) ∷ m) (absent, d) h = elim (dec_lt 0 (weight f t v)) [
    | yes p ↦ let (i, i') = weight-pos v p in (j, v, rw (eq_refl j), i, i')
    | no p ↦
        let (k, rg, found, i, i') = Granted-of_total m d (omega arith) in
        (k, rg, ground (arith, eq_iff j k), i, i')
  ]

  pub total_of_Granted : (m : GoMap ReferenceGrant) → Granted m → 0 < total m
  unfolding weight
  total_of_Granted m (k, rg, found, i, j) =
      let a : 0 < count f (from_keys rg) = count-pos_of_Mem f (from_keys rg) i in
      let b : 0 < count t (to_keys rg) = count-pos_of_Mem t (to_keys rg) j in
      let le : weight f t rg ≤ total m = rw found at (weight-le-total k m) in
      product_pos (count f (from_keys rg)) (count t (to_keys rg)) (total m) a b le
