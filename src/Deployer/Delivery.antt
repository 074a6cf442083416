-- ===== src/Deployer/Delivery.antt =====
-- What a round delivers: the merged request, on every BIG-IP, or another try.
use bigip_kubernetes_gateway.Base.{
  String, ◌≡◌, refl, ap, ◌∙◌, true, Option, none, some, List, [], ◌∷◌, arith, inl, inr, ◌⊎◌,
  Bool-cases, Option-cases, eq_iff, ◌==◌,
}
use bigip_kubernetes_gateway.Base.GoMap.{GoMap, lookup, insert, lookup-insert, HasDistinctKeys}
use bigip_kubernetes_gateway.Base.Lists.{All}
use bigip_kubernetes_gateway.External.{AllNone}
use bigip_kubernetes_gateway.Json.{Json}
use bigip_kubernetes_gateway.Deployer.{
  DeployRequest, Backend, DeployState, is_tenant, has_tenant, merge_into, merge_requests,
  same_as_cached, posted,
}
use bigip_kubernetes_gateway.Deployer.Rounds.{
  AllDistinct, merge_requests-HasDistinctKeys, is_known, lookup-eliminate, noted_by,
}
use bigip_kubernetes_gateway.Deployer.Devices.{
  Device, Posts-others, Posts-tenants, absent_not-IsPosted, posted-IsFresh, note-posted,
}
use bigip_kubernetes_gateway.Deployer.Runs.{
  Answers, Round, Reached, Reached-IsSound, Round-cache, first_distinct,
}

-- A BIG-IP holds a tenant as requested, or one that DeepEqual does not tell from it.
abbrev pub Holds : Backend → String → Json → Device → Type 0
Holds b k t d = (u : Json) × (lookup k d ≡ some u) × ((u ≡ t) ⊎ (b.deep_equal u t ≡ true))

All-map :
    {P Q : Device → Type 0} (ds : List Device) → ((d : Device) → P d → Q d) → All P ds → All Q ds
All-map [] f h = tt
All-map (d ∷ ds) f (h, hs) = (f d h, All-map ds f hs)

has_tenant_of :
    (k : String) (t : Json) (m : GoMap Json)
    → lookup k m ≡ some t
    → is_tenant t ≡ true
    → has_tenant m ≡ true
unfolding has_tenant lookup
has_tenant_of k t [] e y = cc
has_tenant_of k t ((j, u) ∷ m) e y = ground (arith, has_tenant_of k t m)

-- A tenant of the merged request is posted, or the cache has its equal.
posted_or_known :
    (b : Backend) (r : DeployRequest) (ms : List DeployRequest) (cache : GoMap Json) (k : String)
    (t : Json)
    → HasDistinctKeys r.declaration
    → lookup k (merge_requests r.declaration ms) ≡ some t
    → is_tenant t ≡ true
    → (lookup k (posted b r ms cache) ≡ some t)
      ⊎ ((lookup k (posted b r ms cache) ≡ none)
          × ((u : Json) × (lookup k cache ≡ some u) × (b.deep_equal u t ≡ true)))
unfolding posted is_known same_as_cached
posted_or_known b r ms cache k t d e y = elim (Option-cases (lookup k cache)) [
  | inl absent ↦ inl (
      lookup-eliminate b cache k t _ (merge_requests-HasDistinctKeys r.declaration ms d) e
      ∙ rw (y, absent))
  | inr (u, found) ↦ elim (Bool-cases (b.deep_equal u t)) [
    | inl same ↦ inr (
      lookup-eliminate b cache k t _ (merge_requests-HasDistinctKeys r.declaration ms d) e
          ∙ rw (y, found, same_as_cached, same),
      (u, found, same),
    )
    | inr other ↦ inl (
        lookup-eliminate b cache k t _ (merge_requests-HasDistinctKeys r.declaration ms d) e
        ∙ rw (y, found, same_as_cached, other))
  ]
]

merge_into-absent :
    (k : String) (body tenants : GoMap Json)
    → lookup k tenants ≡ none
    → lookup k (merge_into body tenants) ≡ lookup k body
unfolding merge_into lookup
merge_into-absent k body [] h = refl
merge_into-absent k body ((j, t) ∷ tenants) h =
    merge_into-absent k (insert j t body) tenants (ground arith)
    ∙ ground (arith, eq_iff j k, lookup-insert j k t body)

-- A later request's tenant, or what was there.
abbrev pub or_else : Option Json → Option Json → Option Json
or_else (some t) old = some t
or_else none old = old

lookup-merge_into :
    (k : String) (body tenants : GoMap Json)
    → HasDistinctKeys tenants
    → lookup k (merge_into body tenants) ≡ or_else (lookup k tenants) (lookup k body)
unfolding merge_into lookup
lookup-merge_into k body [] d = refl
lookup-merge_into k body ((j, t) ∷ tenants) (absent, d) = elim (Bool-cases (j == k)) [
  | inl same ↦
      let e : j ≡ k = (eq_iff j k).0 same in
      rw (same, merge_into-absent k (insert j t body) tenants (rw e at absent))
        (ground (arith, eq_iff j k, lookup-insert j k t body))
  | inr other ↦
      rw (other, lookup-merge_into k (insert j t body) tenants d)
        (ground (arith, eq_iff j k, lookup-insert j k t body))
]

-- What the latest of some requests says of a tenant.
abbrev pub latest : String → Option Json → List DeployRequest → Option Json
latest k old [] = old
latest k old (m ∷ ms) = latest k (or_else (lookup k m.declaration) old) ms

-- The merged body has of each key what the latest request that names it says.
pub merge_requests-eq-latest :
    (k : String) (body : GoMap Json) (ms : List DeployRequest)
    → AllDistinct ms
    → lookup k (merge_requests body ms) ≡ latest k (lookup k body) ms
unfolding merge_requests
merge_requests-eq-latest k body [] h = refl
merge_requests-eq-latest k body (m ∷ ms) (d, h) =
    merge_requests-eq-latest k (merge_into body m.declaration) ms h
    ∙ ap (λ o. latest k o ms) (lookup-merge_into k body m.declaration d)

module _ (b : Backend)
    (merge-none : (errs : List (Option String)) → b.merge_errors errs ≡ none → AllNone errs)
    {answers : Answers} {s s' : DeployState} {ds ds' : List Device} (reached : Reached b s ds)
    (w : Round b answers s ds s' ds') where
  abbrev merged_of : GoMap Json
  merged_of = merge_requests w.first.declaration w.others

  abbrev posted_of : GoMap Json
  posted_of = posted b w.first w.others s.tenant_cache

  distinct_first : HasDistinctKeys w.first.declaration
  distinct_first =
      first_distinct b s.pending w.first w.others w.waiting
        (Reached-IsSound b merge-none reached).distinct

  absent_kept :
      (k : String) (u : Json)
      → lookup k posted_of ≡ none
      → lookup k s.tenant_cache ≡ some u
      → All (λ d. lookup k d ≡ some u) ds'
  absent_kept k u absent cached =
      let held = (Reached-IsSound b merge-none reached).in_step.at k u cached in
      elim (Bool-cases (has_tenant posted_of)) [
        | inl some_ ↦
            Posts-others posted_of k (some u) (absent_not-IsPosted posted_of k absent)
              (rw some_ at w.posts) held
        | inr none_ ↦ let e : ds' ≡ ds = rw none_ at w.posts in rw e held
      ]

  posted_held :
      (k : String) (t : Json)
      → AllNone (answers posted_of)
      → lookup k posted_of ≡ some t
      → is_tenant t ≡ true
      → All (λ d. lookup k d ≡ some t) ds'
  posted_held k t fine e y =
      Posts-tenants posted_of k t e y (rw (has_tenant_of k t posted_of e y) at w.posts) fine

  -- In every run, if MergeErrors is nil only for nils: when every BIG-IP answers nil, each tenant of
  -- the merged request is on every BIG-IP after the round, whether it was posted or left out as a
  -- duplicate.
  pub round_delivers :
      (k : String) (t : Json)
      → AllNone (answers posted_of)
      → lookup k merged_of ≡ some t
      → is_tenant t ≡ true
      → All (Holds b k t) ds'
  round_delivers k t fine e y =
      elim (posted_or_known b w.first w.others s.tenant_cache k t distinct_first e y) [
        | inl p ↦ All-map ds' (λ d h. (t, h, inl refl)) (posted_held k t fine p y)
        | inr (absent, (u, cached, same)) ↦
            All-map ds' (λ d h. (u, h, inr same)) (absent_kept k u absent cached)
      ]

  noted_cache :
      (k : String) (t : Json)
      → lookup k posted_of ≡ some t
      → is_tenant t ≡ true
      → lookup k s'.tenant_cache ≡ noted_by (b.merge_errors (answers posted_of)) t
  noted_cache k t e y =
      let f = posted-IsFresh b w.first w.others s.tenant_cache distinct_first in
      let c = Round-cache b w in
      rw (c, has_tenant_of k t posted_of e y)
        (note-posted b (answers posted_of) posted_of s.tenant_cache f k t e y)

  -- In every run, if MergeErrors is nil only for nils: when the errors of a round merge to one, each
  -- posted tenant is forgotten: the next requests that are merged, if the keys of the first of them are
  -- distinct, post what they say of the tenant, whatever that is.
  pub failed_round_retries :
      (k : String) (t : Json) (err : String) (r : DeployRequest) (ms : List DeployRequest)
      (t' : Json)
      → b.merge_errors (answers posted_of) ≡ some err
      → lookup k posted_of ≡ some t
      → is_tenant t ≡ true
      → HasDistinctKeys r.declaration
      → lookup k (merge_requests r.declaration ms) ≡ some t'
      → is_tenant t' ≡ true
      → lookup k (posted b r ms s'.tenant_cache) ≡ some t'
  failed_round_retries k t err r ms t' bad e y d e' y' =
      let gone : lookup k s'.tenant_cache ≡ none = noted_cache k t e y ∙ rw bad in
      elim (posted_or_known b r ms s'.tenant_cache k t' d e' y') [
        | inl p ↦ p
        | inr (absent, (u, cached, same)) ↦ cc
      ]
