-- ===== src/Deployer/Rounds.antt =====
-- What a round leaves out, and what it notes in the tenant cache.
use bigip_kubernetes_gateway.Base.{
  String, ◌≡◌, ◌≢◌, refl, ◌∙◌, Bool, not, ◌&&◌, Option, none, some, List, [], ◌∷◌, ◌==◌, eq_iff,
  arith, if◌then◌else◌, inl, inr, Bool-cases,
}
use bigip_kubernetes_gateway.Base.GoMap.{
  GoMap, lookup, insert, lookup-insert, lookup-delete, HasDistinctKeys, insert-HasDistinctKeys,
}
use bigip_kubernetes_gateway.Json.{Json}
use bigip_kubernetes_gateway.Deployer.{
  DeployRequest, Backend, is_tenant, merge_into, merge_requests, same_as_cached, eliminate,
  note_outcome, note_entry, note_deployed,
}

abbrev pub AllDistinct : List DeployRequest → Type 0
AllDistinct [] = Unit
AllDistinct (r ∷ rs) = HasDistinctKeys r.declaration × AllDistinct rs

merge_into-HasDistinctKeys :
    (body tenants : GoMap Json) → HasDistinctKeys body → HasDistinctKeys (merge_into body tenants)
unfolding merge_into
merge_into-HasDistinctKeys body [] h = h
merge_into-HasDistinctKeys body ((k, t) ∷ tenants) h =
    merge_into-HasDistinctKeys (insert k t body) tenants (insert-HasDistinctKeys k t body h)

pub merge_requests-HasDistinctKeys :
    (body : GoMap Json) (ms : List DeployRequest)
    → HasDistinctKeys body
    → HasDistinctKeys (merge_requests body ms)
unfolding merge_requests
merge_requests-HasDistinctKeys body [] h = h
merge_requests-HasDistinctKeys body (m ∷ ms) h =
    merge_requests-HasDistinctKeys (merge_into body m.declaration) ms
      (merge_into-HasDistinctKeys body m.declaration h)

module _ (b : Backend) (cache : GoMap Json) where
  -- The tenant of a key that the cache knows already.
  unfoldable pub is_known : String → Json → Bool
  is_known k t = is_tenant t && same_as_cached b t (lookup k cache)

  pub lookup-eliminate_absent :
      (k : String) (m : GoMap Json) → lookup k m ≡ none → lookup k (eliminate b cache m) ≡ none
  unfolding eliminate lookup
  lookup-eliminate_absent k [] h = refl
  lookup-eliminate_absent k ((j, t) ∷ m) h = ground (arith, lookup-eliminate_absent k m)

  pub lookup-eliminate :
      (k : String) (t : Json) (m : GoMap Json)
      → HasDistinctKeys m
      → lookup k m ≡ some t
      → lookup k (eliminate b cache m) ≡ (if is_known k t then none else some t)
  unfolding eliminate lookup is_known
  lookup-eliminate k t [] d h = cc
  lookup-eliminate k t ((j, u) ∷ m) (absent, d) h =
      ground (arith, eq_iff j k, lookup-eliminate k t m d, lookup-eliminate_absent k m)

  pub eliminate-HasDistinctKeys :
      (m : GoMap Json) → HasDistinctKeys m → HasDistinctKeys (eliminate b cache m)
  unfolding eliminate
  eliminate-HasDistinctKeys [] d = tt
  eliminate-HasDistinctKeys ((j, u) ∷ m) (absent, d) =
      ground (arith, lookup-eliminate_absent j m absent, eliminate-HasDistinctKeys m d)

-- What the cache holds of a posted tenant afterwards.
abbrev pub noted_by : Option String → Json → Option Json
noted_by none t = some t
noted_by (some e) t = none

lookup-note_outcome :
    (o : Option String) (k j : String) (t : Json) (cache : GoMap Json)
    → lookup k (note_outcome o j t cache) ≡ (if j == k then noted_by o t else lookup k cache)
unfolding note_outcome
lookup-note_outcome none k j t cache = lookup-insert j k t cache
lookup-note_outcome (some e) k j t cache = lookup-delete j k cache

module _ (b : Backend) (errs : List (Option String)) where
  -- Another key's entry is left alone.
  lookup-note_ne :
      (k j : String) (t : Json) (cache : GoMap Json)
      → (j ≢ k)
      → lookup k (note_entry b errs j t cache) ≡ lookup k cache
  unfolding note_entry
  lookup-note_ne k j t cache h =
      ground (arith, eq_iff j k, lookup-note_outcome (b.merge_errors errs) k j t cache)

  ne_of_absent :
      (k j : String) (u : Json) (m : GoMap Json)
      → lookup k ((j, u) ∷ m) ≡ none
      → (j ≢ k) × (lookup k m ≡ none)
  unfolding lookup
  ne_of_absent k j u m h = ground (arith, eq_iff j k)

  pub lookup-note_absent :
      (k : String) (m cache : GoMap Json)
      → lookup k m ≡ none
      → lookup k (note_deployed b errs m cache) ≡ lookup k cache
  unfolding note_deployed
  lookup-note_absent k [] cache h = refl
  lookup-note_absent k ((j, u) ∷ m) cache h =
      let (n, h') = ne_of_absent k j u m h in
      lookup-note_absent k m (note_entry b errs j u cache) h' ∙ lookup-note_ne k j u cache n

  lookup-note_self :
      (k : String) (t : Json) (cache : GoMap Json)
      → lookup k (note_entry b errs k t cache) ≡ (
          if is_tenant t && not (same_as_cached b t (lookup k cache))
          then noted_by (b.merge_errors errs) t
          else lookup k cache)
  unfolding note_entry
  lookup-note_self k t cache =
      ground (arith, eq_iff k k, lookup-note_outcome (b.merge_errors errs) k k t cache)

  -- A posted entry is noted as the errors say, if it is a tenant that the cache does not know.
  pub lookup-note :
      (k : String) (t : Json) (m cache : GoMap Json)
      → HasDistinctKeys m
      → lookup k m ≡ some t
      → lookup k (note_deployed b errs m cache) ≡ (
          if is_tenant t && not (same_as_cached b t (lookup k cache))
          then noted_by (b.merge_errors errs) t
          else lookup k cache)
  unfolding note_deployed lookup
  lookup-note k t [] cache d h = cc
  lookup-note k t ((j, u) ∷ m) cache (absent, d) h = elim (Bool-cases (j == k)) [
    | inl same ↦
        let e : j ≡ k = (eq_iff j k).0 same in
        let u_is_t : u ≡ t = ground arith in
        lookup-note_absent k m (note_entry b errs j u cache) (rw e at absent)
        ∙ rw (e, u_is_t) (lookup-note_self k t cache)
    | inr other ↦
        let n : j ≢ k = ground (arith, eq_iff j k) in
        let ih = lookup-note k t m (note_entry b errs j u cache) d (rw other at h) in
        rw (lookup-note_ne k j u cache n) at ih
  ]
