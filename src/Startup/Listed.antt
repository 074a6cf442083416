-- ===== src/Startup/Listed.antt =====
-- The index of grants after the synchronisation.
use bigip_kubernetes_gateway.Base.{
  ℕ, ◌+◌, ◌<◌, String, Bool, true, false, if◌then◌else◌, ◌≡◌, refl, arith, inl, inr, Option-cases,
  Outcome-cases, Option, none, some, List, [], ◌∷◌, returns, panics,
}
use bigip_kubernetes_gateway.Api.{ReferenceGrant}
use bigip_kubernetes_gateway.External.{External}
use bigip_kubernetes_gateway.K8s.Nodes.{Node, Unmarshalled}
use bigip_kubernetes_gateway.Grants.Counting.{weight}
use bigip_kubernetes_gateway.Cache.{SigCache, set_reference_grant, object_key}
use bigip_kubernetes_gateway.Cache.GrantIndex.Totals.{total, total-insert}
use bigip_kubernetes_gateway.Cache.GrantIndex.Reach.{
  IsIndexed, Fits, Update, apply, apply-IsIndexed, IsIndexed-frame,
}
use bigip_kubernetes_gateway.Startup.{
  Listing, listed, unlisted, Cluster, Synced, Part, continue, then_unless, over, add_each,
  sync_listing, add_endpoints, add_service, add_namespace, add_secret, add_grant, set_nodes,
  sync_nodes, sync_namespaces, sync_core_v1_resources,
}

abbrev pub items_of {ℓ} : {A : Type ℓ} → Listing A → List A
items_of (listed as_) = as_
items_of (unlisted e) = []

-- The grants and the index are left alone.
abbrev pub Same : SigCache → SigCache → Type 0
Same c d = (d.reference_grant ≡ c.reference_grant) × (d.ref_from_to ≡ c.ref_from_to)

-- What holds of a part however it ends.
abbrev pub Ensures : (Synced → Type 0) → Part → Type 0
Ensures P m = (s : Synced) (e : Option String) → ◌≡◌ {A = Part} m (returns (s, e)) → P s

pub Ensures-then :
    (P Q : Synced → Type 0) (m : Part) (k : Synced → Part)
    → ((s : Synced) → P s → Q s)
    → Ensures P m
    → ((s : Synced) → P s → Ensures Q (k s))
    → Ensures Q (continue m k)
Ensures-then P Q panics k w h g s e eq = cc eq
Ensures-then P Q (returns (s', some err)) k w h g s e eq =
    let same : s' ≡ s = cc in rw (← same) (w s' (h s' (some err) refl))
Ensures-then P Q (returns (s', none)) k w h g s e eq = g s' (h s' none refl) s e eq

pub Ensures-continue :
    (P : Synced → Type 0) (m : Part) (k : Synced → Part)
    → Ensures P m
    → ((s : Synced) → P s → Ensures P (k s))
    → Ensures P (continue m k)
Ensures-continue P m k h g = Ensures-then P P m k (λ s p. p) h g

pub Ensures-returns :
    (P : Synced → Type 0) (s : Synced) (e : Option String) → P s → Ensures P (returns (s, e))
Ensures-returns P s e p s' e' eq = let same : s ≡ s' = cc in rw (← same) p

module _ ⦃ext : External⦄ where
  -- The references that listed grants permit, counted.
  abbrev pub listed_weight : String → String → List ReferenceGrant → ℕ
  listed_weight f t [] = 0
  listed_weight f t (rg ∷ rgs) = weight f t rg + listed_weight f t rgs

  -- Every counter has room for the cached grants and the listed ones.
  abbrev pub FitsWith : List ReferenceGrant → SigCache → Type 0
  FitsWith rgs c = (f t : String) → total f t c.reference_grant + listed_weight f t rgs < 256

  -- What the synchronisation keeps until it comes to the grants.
  abbrev pub Ready : List ReferenceGrant → SigCache → Type 0
  Ready rgs c = IsIndexed c × FitsWith rgs c

  pub Ready-Same :
      (rgs : List ReferenceGrant) (c d : SigCache) → Same c d → Ready rgs c → Ready rgs d
  Ready-Same rgs c d (g, r) (ix, fits) = (IsIndexed-frame c d ix g r, λ f t. rw g (fits f t))

  Fits-of_FitsWith : (rgs : List ReferenceGrant) (c : SigCache) → FitsWith rgs c → Fits c
  Fits-of_FitsWith rgs c h f t = omega (arith, h f t)

  add_each-Ready {ℓ} :
      {A : Type ℓ} (put : A → SigCache → SigCache) (rgs : List ReferenceGrant)
      → ((a : A) (c : SigCache) → Same c (put a c))
      → (l : List A) (c : SigCache) → Ready rgs c
      → Ready rgs (add_each put l c)
  unfolding add_each
  add_each-Ready put rgs same [] c h = h
  add_each-Ready put rgs same (a ∷ l) c h =
      add_each-Ready put rgs same l (put a c) (Ready-Same rgs c (put a c) (same a c) h)

  pub sync_listing-Ready {ℓ} :
      {A : Type ℓ} (put : A → SigCache → SigCache) (rgs : List ReferenceGrant)
      → ((a : A) (c : SigCache) → Same c (put a c))
      → (l : Listing A) (s : Synced) → Ready rgs s.store
      → Ensures (λ s'. Ready rgs s'.store) (sync_listing put l s)
  unfolding sync_listing
  sync_listing-Ready put rgs same (listed as_) s h =
      Ensures-returns _ (over s (add_each put as_ s.store)) none
        (add_each-Ready put rgs same as_ s.store h)
  sync_listing-Ready put rgs same (unlisted e) s h = Ensures-returns _ s (some e) h

  -- One grant of the listing.
  add_grant-Ready :
      (rg : ReferenceGrant) (rgs : List ReferenceGrant) (c : SigCache)
      → Ready (rg ∷ rgs) c
      → Ready rgs (add_grant rg c)
  unfolding set_reference_grant apply
  add_grant-Ready rg rgs c (ix, fits) =
      let k = object_key rg.namespace rg.name in
      let next : FitsWith rgs (set_reference_grant (some rg) c) =
        λ f t. omega (arith, fits f t, total-insert f t k rg c.reference_grant) in
      (
        apply-IsIndexed (Update.grant_set (some rg)) c (set_reference_grant (some rg) c) ix
            (Fits-of_FitsWith (rg ∷ rgs) c fits) refl
            (Fits-of_FitsWith rgs (set_reference_grant (some rg) c) next),
        next,
      )

  add_grants-Ready :
      (rgs : List ReferenceGrant) (c : SigCache) → Ready rgs c → Ready [] (add_each add_grant rgs c)
  unfolding add_each
  add_grants-Ready [] c h = h
  add_grants-Ready (rg ∷ rgs) c h =
      add_grants-Ready rgs (add_grant rg c) (add_grant-Ready rg rgs c h)

  -- The index follows the cached grants, with room in every counter.
  abbrev pub IsConsistent : SigCache → Type 0
  IsConsistent c = IsIndexed c × Fits c

  pub Ready-IsConsistent : (rgs : List ReferenceGrant) (c : SigCache) → Ready rgs c → IsConsistent c
  Ready-IsConsistent rgs c (ix, fits) = (ix, Fits-of_FitsWith rgs c fits)

  pub sync_grants-IsConsistent :
      (l : Listing ReferenceGrant) (s : Synced)
      → Ready (items_of l) s.store
      → Ensures (λ s'. IsConsistent s'.store) (sync_listing add_grant l s)
  unfolding sync_listing
  sync_grants-IsConsistent (listed rgs) s h =
      Ensures-returns _ (over s (add_each add_grant rgs s.store)) none
        (Ready-IsConsistent [] _ (add_grants-Ready rgs s.store h))
  sync_grants-IsConsistent (unlisted e) s h =
      Ensures-returns _ s (some e) (Ready-IsConsistent [] _ h)

  pub if-Same : (b : Bool) (c d : SigCache) → Same c d → Same c (if b then d else c)
  if-Same true c d h = h
  if-Same false c d h = (refl, refl)

  module _ (unmarshal : String → Unmarshalled) (k : Cluster) (rgs : List ReferenceGrant) where
    abbrev ReadyAt : Synced → Type 0
    ReadyAt s = Ready rgs s.store

    sync_nodes-Ready :
        (l : Listing Node) (s : Synced) → ReadyAt s → Ensures ReadyAt (sync_nodes unmarshal l s)
    unfolding sync_nodes
    sync_nodes-Ready (listed ns) s h = elim (Outcome-cases (set_nodes unmarshal ns s.nodes)) [
      | inl broken ↦ rw broken (λ s' e eq. cc eq)
      | inr (nodes, found) ↦ rw found (Ensures-returns ReadyAt (record s { nodes = nodes }) none h)
    ]
    sync_nodes-Ready (unlisted e) s h = Ensures-returns ReadyAt s (some e) h

    then_unless-Ready {ℓ} :
        {A : Type ℓ} (l : Listing A) (m n : Part)
        → Ensures ReadyAt m
        → Ensures ReadyAt n
        → Ensures ReadyAt (then_unless l m n)
    then_unless-Ready (listed as_) m n h g = h
    then_unless-Ready (unlisted e) m n h g = g

    sync_namespaces-Ready :
        (s : Synced) → ReadyAt s → Ensures ReadyAt (sync_namespaces unmarshal k s)
    unfolding sync_namespaces
    sync_namespaces-Ready s h =
        then_unless-Ready k.namespaces _ _
          (Ensures-continue ReadyAt _ _
            (sync_listing-Ready add_namespace rgs (λ a c. (refl, refl)) k.namespaces s h)
            (λ s1 h1.
              Ensures-continue ReadyAt _ _ (sync_nodes-Ready k.nodes s1 h1)
                (λ s2 h2. sync_listing-Ready add_secret rgs (λ a c. (refl, refl)) k.secrets s2 h2)))
          (Ensures-returns ReadyAt s none h)

    pub sync_core-Ready :
        (s : Synced) → ReadyAt s → Ensures ReadyAt (sync_core_v1_resources unmarshal k s)
    unfolding sync_core_v1_resources sync_namespaces
    sync_core-Ready s h = elim (Option-cases k.client) [
      | inl fine ↦ rw fine (
          Ensures-continue ReadyAt _ _
            (sync_listing-Ready add_endpoints rgs (λ a c. (refl, refl)) k.endpoints s h)
            (λ s1 h1.
              Ensures-continue ReadyAt _ _
                (sync_listing-Ready add_service rgs (λ a c. (refl, refl)) k.services s1 h1)
                (λ s2 h2. sync_namespaces-Ready s2 h2)))
      | inr (e, bad) ↦ rw bad (Ensures-returns ReadyAt s (some e) h)
    ]
