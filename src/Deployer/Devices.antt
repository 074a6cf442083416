-- ===== src/Deployer/Devices.antt =====
-- The BIG-IPs behind the deployer. deployer.HandleRequest is not the repository's code: its
-- documented effect is a relation here. An answer of nil means that the BIG-IP has installed every
-- tenant of the body; an error leaves those tenants in any state; neither touches other tenants.
use bigip_kubernetes_gateway.Base.{
  String, ◌≡◌, sym, ◌∙◌, Bool, true, false, Option, none, some, List, [], ◌∷◌, arith, inl, inr,
  Bool-cases, Option-cases,
}
use bigip_kubernetes_gateway.Base.GoMap.{GoMap, lookup, HasDistinctKeys}
use bigip_kubernetes_gateway.Base.Lists.{All}
use bigip_kubernetes_gateway.External.{AllNone}
use bigip_kubernetes_gateway.Json.{Json}
use bigip_kubernetes_gateway.Deployer.{
  DeployRequest, Backend, is_tenant, merge_requests, same_as_cached, eliminate, note_deployed,
  posted,
}
use bigip_kubernetes_gateway.Deployer.Rounds.{
  merge_requests-HasDistinctKeys, is_known, lookup-eliminate, lookup-eliminate_absent,
  eliminate-HasDistinctKeys, noted_by, lookup-note_absent, lookup-note,
}

-- The tenants of a BIG-IP, by name.
abbrev pub Device : Type 0
Device = GoMap Json

abbrev pub IsPosted : GoMap Json → String → Type 0
IsPosted body k = (t : Json) × (lookup k body ≡ some t) × (is_tenant t ≡ true)

pub record Leaves (body : GoMap Json) (d d' : Device) : Type 0 where
  pub others : (k : String) → ¬ (IsPosted body k) → lookup k d' ≡ lookup k d

pub record Installs (body : GoMap Json) (d d' : Device) : Type 0 where
  pub leaves : Leaves body d d'
  pub tenants :
      (k : String) (t : Json) → lookup k body ≡ some t → is_tenant t ≡ true → lookup k d' ≡ some t

pub data Posts (body : GoMap Json) : List (Option String) → List Device → List Device → Type 0 where
  done : Posts body [] [] []
  installed :
      {d d' : Device} {errs : List (Option String)} {ds ds' : List Device}
      → Installs body d d'
      → Posts body errs ds ds'
      → Posts body (none ∷ errs) (d ∷ ds) (d' ∷ ds')
  failed :
      {e : String} {d d' : Device} {errs : List (Option String)} {ds ds' : List Device}
      → Leaves body d d'
      → Posts body errs ds ds'
      → Posts body (some e ∷ errs) (d ∷ ds) (d' ∷ ds')

-- The loop over the BIG-IPs runs only if the body has a tenant.
abbrev pub PostsIf : Bool → GoMap Json → List (Option String) → List Device → List Device → Type 0
PostsIf true body errs ds ds' = Posts body errs ds ds'
PostsIf false body errs ds ds' = ds' ≡ ds

-- Whatever the cache holds of a tenant is on every BIG-IP.
pub record InStep (cache : GoMap Json) (ds : List Device) : Type 0 where
  pub at : (k : String) (t : Json) → lookup k cache ≡ some t → All (λ d. lookup k d ≡ some t) ds

pub Posts-others :
    (body : GoMap Json) (k : String) (o : Option Json) {errs : List (Option String)}
    {ds ds' : List Device}
    → ¬ (IsPosted body k)
    → Posts body errs ds ds'
    → All (λ d. lookup k d ≡ o) ds
    → All (λ d. lookup k d ≡ o) ds'
Posts-others body k o n done h = tt
Posts-others body k o n (installed i p) (h, hs) =
    (i.leaves.others k n ∙ h, Posts-others body k o n p hs)
Posts-others body k o n (failed l p) (h, hs) = (l.others k n ∙ h, Posts-others body k o n p hs)

pub Posts-tenants :
    (body : GoMap Json) (k : String) (t : Json) {errs : List (Option String)} {ds ds' : List Device}
    → lookup k body ≡ some t
    → is_tenant t ≡ true
    → Posts body errs ds ds'
    → AllNone errs
    → All (λ d. lookup k d ≡ some t) ds'
Posts-tenants body k t found tenant done a = tt
Posts-tenants body k t found tenant (installed i p) a =
    (i.tenants k t found tenant, Posts-tenants body k t found tenant p a.1)
Posts-tenants body k t found tenant (failed l p) a = cc (a.0)

-- What a round knows of its body: the keys are distinct, and no tenant of it is a duplicate.
pub record IsFresh (b : Backend) (body cache : GoMap Json) : Type 0 where
  pub distinct : HasDistinctKeys body
  pub fresh :
      (k : String) (t : Json)
      → lookup k body ≡ some t
      → is_tenant t ≡ true
      → same_as_cached b t (lookup k cache) ≡ false

pub absent_not-IsPosted :
    (body : GoMap Json) (k : String) → lookup k body ≡ none → ¬ (IsPosted body k)
absent_not-IsPosted body k absent (t, found, _) = cc

plain_not-IsPosted :
    (body : GoMap Json) (k : String) (u : Json)
    → lookup k body ≡ some u
    → is_tenant u ≡ false
    → ¬ (IsPosted body k)
plain_not-IsPosted body k u found n (t, found', y) = ground arith

eliminate-fresh :
    (b : Backend) (cache m : GoMap Json) (k : String) (t : Json)
    → HasDistinctKeys m
    → lookup k (eliminate b cache m) ≡ some t
    → is_tenant t ≡ true
    → same_as_cached b t (lookup k cache) ≡ false
unfolding is_known
eliminate-fresh b cache m k t d e y = elim (Option-cases (lookup k m)) [
  | inl absent ↦ cc (lookup-eliminate_absent b cache k m absent)
  | inr (u, found) ↦ ground (arith, lookup-eliminate b cache k u m d found)
]

-- The body that a round posts.
pub posted-IsFresh :
    (b : Backend) (r : DeployRequest) (ms : List DeployRequest) (cache : GoMap Json)
    → HasDistinctKeys r.declaration
    → IsFresh b (posted b r ms cache) cache
unfolding posted
posted-IsFresh b r ms cache h =
    let merged = merge_requests r.declaration ms in
    let d = merge_requests-HasDistinctKeys r.declaration ms h in
    record {
      distinct = eliminate-HasDistinctKeys b cache merged d;
      fresh = λ k t e y. eliminate-fresh b cache merged k t d e y;
    }

module _ (b : Backend) (errs : List (Option String)) (body cache : GoMap Json)
    (f : IsFresh b body cache) where
  -- What the round leaves in the cache of a key.
  note-plain :
      (k : String)
      → ¬ (IsPosted body k)
      → lookup k (note_deployed b errs body cache) ≡ lookup k cache
  note-plain k n = elim (Option-cases (lookup k body)) [
    | inl absent ↦ lookup-note_absent b errs k body cache absent
    | inr (u, found) ↦ elim (Bool-cases (is_tenant u)) [
      | inl y ↦ absurd (n (u, found, y))
      | inr plain ↦ lookup-note b errs k u body cache f.distinct found ∙ rw plain
    ]
  ]

  pub note-posted :
      (k : String) (t : Json)
      → lookup k body ≡ some t
      → is_tenant t ≡ true
      → lookup k (note_deployed b errs body cache) ≡ noted_by (b.merge_errors errs) t
  note-posted k t found y =
      lookup-note b errs k t body cache f.distinct found ∙ rw (y, f.fresh k t found y)

  module _ (merge-none : b.merge_errors errs ≡ none → AllNone errs) {ds ds' : List Device} where
    kept-All :
        (k : String) (t : Json)
        → Posts body errs ds ds'
        → InStep cache ds
        → ¬ (IsPosted body k)
        → lookup k (note_deployed b errs body cache) ≡ some t
        → All (λ d. lookup k d ≡ some t) ds'
    kept-All k t p step n e =
        Posts-others body k (some t) n p (step.at k t (sym (note-plain k n) ∙ e))

    tenant-All :
        (k : String) (t u : Json)
        → Posts body errs ds ds'
        → lookup k body ≡ some u
        → is_tenant u ≡ true
        → lookup k (note_deployed b errs body cache) ≡ some t
        → All (λ d. lookup k d ≡ some t) ds'
    tenant-All k t u p found y e = elim (Option-cases (b.merge_errors errs)) [
      | inl fine ↦
          let same : u ≡ t = cc (note-posted k u found y, fine, e) in
          Posts-tenants body k t (rw (← same) found) (rw (← same) y) p (merge-none fine)
      | inr (err, bad) ↦
          let gone : none ≡ some t = rw bad at (sym (note-posted k u found y) ∙ e) in cc
    ]

    -- One posted body: the cache and the BIG-IPs stay in step.
    pub Posts-InStep :
        Posts body errs ds ds' → InStep cache ds → InStep (note_deployed b errs body cache) ds'
    Posts-InStep p step = record {
      at = λ k t e. elim (Option-cases (lookup k body)) [
        | inl absent ↦ kept-All k t p step (absent_not-IsPosted body k absent) e
        | inr (u, found) ↦ elim (Bool-cases (is_tenant u)) [
          | inl y ↦ tenant-All k t u p found y e
          | inr plain ↦ kept-All k t p step (plain_not-IsPosted body k u found plain) e
        ]
      ];
    }
