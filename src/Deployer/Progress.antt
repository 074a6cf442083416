-- ===== src/Deployer/Progress.antt =====
-- Rounds with BIG-IPs that take every body, for concrete runs.
use bigip_kubernetes_gateway.Base.{
  String, ◌≡◌, refl, Bool, true, false, Option, none, some, List, [], ◌∷◌, map, ◌==◌, eq_iff, inl,
  inr, if◌then◌else◌, Bool-cases, Option-cases,
}
use bigip_kubernetes_gateway.Base.GoMap.{GoMap, lookup, insert, lookup-insert, HasDistinctKeys}
use bigip_kubernetes_gateway.Json.{Json}
use bigip_kubernetes_gateway.Deployer.{
  DeployRequest, Backend, DeployState, is_tenant, has_tenant, posted, run_round,
}
use bigip_kubernetes_gateway.Deployer.Devices.{Device, Installs, Posts, PostsIf, posted-IsFresh}
use bigip_kubernetes_gateway.Deployer.Runs.{
  Round, Reached, Reached-IsSound, first_distinct, handle_next_lem, pending-run_round,
}
use bigip_kubernetes_gateway.External.{AllNone}

-- The tenants of a body put over those of a BIG-IP.
install : GoMap Json → Device → Device
install [] d = d
install ((k, t) ∷ body) d =
    let rest = install body d in if is_tenant t then insert k t rest else rest

installed_over : Option Json → Option Json → Option Json
installed_over none old = old
installed_over (some t) old = if is_tenant t then some t else old

lookup-install :
    (k : String) (body : GoMap Json) (d : Device)
    → HasDistinctKeys body
    → lookup k (install body d) ≡ installed_over (lookup k body) (lookup k d)
unfolding install installed_over lookup
lookup-install k [] d h = refl
lookup-install k ((j, t) ∷ body) d (absent, h) =
    let ih = lookup-install k body d h in
    elim (Bool-cases (j == k)) [
      | inl y ↦ elim (Bool-cases (is_tenant t)) [
        | inl put ↦ rw (y, put, lookup-insert j k t (install body d), y) refl
        | inr left ↦
            let e : lookup k body ≡ none = rw ((eq_iff j k).0 y) at absent in
            rw (y, left, ih, e) refl
      ]
      | inr n ↦ elim (Bool-cases (is_tenant t)) [
        | inl put ↦ rw (n, put, lookup-insert j k t (install body d), n) ih
        | inr left ↦ rw (n, left) ih
      ]
    ]

install-Installs :
    (body : GoMap Json) (d : Device) → HasDistinctKeys body → Installs body d (install body d)
unfolding installed_over
install-Installs body d h = record {
  leaves = record {
    others = λ k n. elim (Option-cases (lookup k body)) [
      | inl absent ↦ rw (lookup-install k body d h, absent) refl
      | inr (t, found) ↦ elim (Bool-cases (is_tenant t)) [
        | inl put ↦ absurd (n (t, found, put))
        | inr left ↦ rw (lookup-install k body d h, found, left) refl
      ]
    ];
  };
  tenants = λ k t e y. rw (lookup-install k body d h, e, y) refl;
}

-- One answer of nil for each BIG-IP.
abbrev pub all_fine : List Device → List (Option String)
all_fine [] = []
all_fine (d ∷ ds) = none ∷ all_fine ds

install-Posts :
    (body : GoMap Json) (ds : List Device)
    → HasDistinctKeys body
    → Posts body (all_fine ds) ds (map (install body) ds)
install-Posts body [] h = Posts.done
install-Posts body (d ∷ ds) h =
    Posts.installed (install-Installs body d h) (install-Posts body ds h)

posts_if :
    (ok : Bool) (body : GoMap Json) (ds : List Device)
    → HasDistinctKeys body
    → (ds' : List Device) × PostsIf ok body (all_fine ds) ds ds'
posts_if true body ds h = (map (install body) ds, install-Posts body ds h)
posts_if false body ds h = (ds, refl)

module _ (b : Backend)
    (merge-none : (errs : List (Option String)) → b.merge_errors errs ≡ none → AllNone errs) where
  -- In every run, if MergeErrors is nil only for nils: when a request waits, a round can be made in
  -- which every BIG-IP answers nil, and it leaves the queue empty.
  pub round_enabled :
      {s : DeployState} {ds : List Device} (r : DeployRequest) (ms : List DeployRequest)
      → Reached b s ds
      → s.pending ≡ r ∷ ms
      → (s' : DeployState) × (ds' : List Device) × Round b (λ body. all_fine ds) s ds s' ds'
        × (s'.pending ≡ [])
  round_enabled {s} {ds} r ms h e =
      let d = first_distinct b s.pending r ms e (Reached-IsSound b merge-none h).distinct in
      let body = posted b r ms s.tenant_cache in
      let f = posted-IsFresh b r ms s.tenant_cache d in
      let (ds', p) = posts_if (has_tenant body) body ds f.distinct in
      (
        run_round b (λ body. all_fine ds) s r ms,
        ds',
        record {
          first = r;
          others = ms;
          waiting = e;
          result = handle_next_lem b (λ body. all_fine ds) s r ms e;
          posts = p;
        },
        pending-run_round b (λ body. all_fine ds) s r ms,
      )
