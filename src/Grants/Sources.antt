-- ===== src/Grants/Sources.antt =====
-- Which sources the index knows: `set` adds a grant's, and neither `set` nor `unset` drops any.
use mathlib.Core.List.Memᴰ.{Memᴰ}
use mathlib.Core.List.Memᴰ
use bigip_kubernetes_gateway.Base.{
  String, ◌≡◌, ◌≢◌, none, List, [], ◌∷◌, map, arith, eq_iff, inl, inr, Option-cases, or_default,
}
use bigip_kubernetes_gateway.Base.GoMap.{lookup, insert, lookup-insert}
use bigip_kubernetes_gateway.Api.{GrantFrom, GrantTo, ReferenceGrant}
use bigip_kubernetes_gateway.External.{External}
use bigip_kubernetes_gateway.Grants.{
  Counters, FromTo, stringify_rg_from, increment_all, set_from, set, decrement_all, unset_from,
  unset,
}
use bigip_kubernetes_gateway.Grants.Counting.{from_keys}

abbrev pub Knows : FromTo → String → Type 0
Knows m g = lookup g m ≢ none

insert-Knows : (j k : String) (c : Counters) (m : FromTo) → Knows m j → Knows (insert k c m) j
insert-Knows j k c m h e = ground (arith, lookup-insert k j c m)

insert-Knows_self : (j k : String) (c : Counters) (m : FromTo) → j ≡ k → Knows (insert k c m) j
insert-Knows_self j k c m h e = ground (arith, lookup-insert k j c m, eq_iff k j)

module _ ⦃ext : External⦄ where
  set_from-Knows :
      (ns : String) (to : List GrantTo) (from : List GrantFrom) (m : FromTo) (j : String)
      → Knows m j
      → Knows (set_from ns to from m) j
  unfolding set_from
  set_from-Knows ns to [] m j h = h
  set_from-Knows ns to (g ∷ from) m j h =
      let key = stringify_rg_from g in
      let c = increment_all ns to (or_default [] (lookup key m)) in
      set_from-Knows ns to from (insert key c m) j (insert-Knows j key c m h)

  set_from-Knows_new :
      (ns : String) (to : List GrantTo) (from : List GrantFrom) (m : FromTo) (j : String)
      → Memᴰ j (map stringify_rg_from from)
      → Knows (set_from ns to from m) j
  unfolding set_from
  set_from-Knows_new ns to [] m j i = absurd (Memᴰ.not-nil i)
  set_from-Knows_new ns to (g ∷ from) m j i =
      let key = stringify_rg_from g in
      let c = increment_all ns to (or_default [] (lookup key m)) in
      elim (Memᴰ.cases_cons i) [
        | inl e ↦ set_from-Knows ns to from (insert key c m) j (insert-Knows_self j key c m e)
        | inr k ↦ set_from-Knows_new ns to from (insert key c m) j k
      ]

  unset_from-Knows :
      (ns : String) (to : List GrantTo) (from : List GrantFrom) (m : FromTo) (j : String)
      → Knows m j
      → Knows (unset_from ns to from m) j
  unfolding unset_from
  unset_from-Knows ns to [] m j h = h
  unset_from-Knows ns to (g ∷ from) m j h = elim (Option-cases (lookup (stringify_rg_from g) m)) [
    | inl missing ↦ rw (missing, unset_from) h
    | inr (c, found) ↦
        let key = stringify_rg_from g in
        let d = decrement_all ns to c in
        rw (found, unset_from)
          (unset_from-Knows ns to from (insert key d m) j (insert-Knows j key d m h))
  ]

  pub set-Knows : (rg : ReferenceGrant) (m : FromTo) (j : String) → Knows m j → Knows (set rg m) j
  unfolding set
  set-Knows rg m j h = set_from-Knows rg.namespace rg.to rg.from m j h

  pub set-Knows_new :
      (rg : ReferenceGrant) (m : FromTo) (j : String) → Memᴰ j (from_keys rg) → Knows (set rg m) j
  unfolding set from_keys
  set-Knows_new rg m j i = set_from-Knows_new rg.namespace rg.to rg.from m j i

  pub unset-Knows :
      (rg : ReferenceGrant) (m : FromTo) (j : String) → Knows m j → Knows (unset rg m) j
  unfolding unset
  unset-Knows rg m j h = unset_from-Knows rg.namespace rg.to rg.from m j h
