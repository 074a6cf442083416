-- ===== src/Deployer/Runs.antt =====
-- Runs of the deployer: requests arrive at any time, and rounds are made with any answers.
use bigip_kubernetes_gateway.Base.{
  String, ◌≡◌, Option, none, some, List, [], ◌∷◌, ◌++◌, arith, if◌then◌else◌, inl, inr, Bool-cases,
}
use bigip_kubernetes_gateway.Base.GoMap.{GoMap, lookup, HasDistinctKeys}
use bigip_kubernetes_gateway.External.{AllNone}
use bigip_kubernetes_gateway.Json.{Json}
use bigip_kubernetes_gateway.Deployer.{
  DeployRequest, Backend, DeployState, has_tenant, note_deployed, posted, handle_next, run_round,
}
use bigip_kubernetes_gateway.Deployer.Rounds.{AllDistinct}
use bigip_kubernetes_gateway.Deployer.Devices.{
  Device, InStep, Posts, PostsIf, Posts-InStep, posted-IsFresh,
}

abbrev pub idle : DeployState
idle = record { pending = []; tenant_cache = []; responses = [] }

abbrev pub Answers : Type 0
Answers = GoMap Json → List (Option String)

module _ (b : Backend) where
  -- One round, with the body that it posts and what that does to the BIG-IPs.
  pub record Round (answers : Answers) (s : DeployState) (ds : List Device) (s' : DeployState)
      (ds' : List Device) : Type 0 where
    pub first : DeployRequest
    pub others : List DeployRequest
    pub waiting : s.pending ≡ first ∷ others
    pub result : handle_next b answers s ≡ some s'
    pub posts :
        PostsIf
          (has_tenant (posted b first others s.tenant_cache))
          (posted b first others s.tenant_cache)
          (answers (posted b first others s.tenant_cache))
          ds
          ds'

  pub data Reached : DeployState → List Device → Type 0 where
    start : (ds : List Device) → Reached idle ds
    request :
        {s : DeployState} {ds : List Device} (r : DeployRequest)
        → HasDistinctKeys r.declaration
        → Reached s ds
        → Reached (record s { pending = s.pending ++ r ∷ [] }) ds
    round :
        {s s' : DeployState} {ds ds' : List Device} (answers : Answers)
        → Reached s ds
        → Round answers s ds s' ds'
        → Reached s' ds'

  AllDistinct-append :
      (rs : List DeployRequest) (r : DeployRequest)
      → AllDistinct rs
      → HasDistinctKeys r.declaration
      → AllDistinct (rs ++ r ∷ [])
  AllDistinct-append [] r h k = (k, tt)
  AllDistinct-append (q ∷ rs) r (h, hs) k = (h, AllDistinct-append rs r hs k)

  -- What a round leaves.
  pub handle_next_lem :
      (answers : Answers) (s : DeployState) (r : DeployRequest) (ms : List DeployRequest)
      → s.pending ≡ r ∷ ms
      → handle_next b answers s ≡ some (run_round b answers s r ms)
  unfolding handle_next
  handle_next_lem answers s r ms e = ground arith

  pub pending-run_round :
      (answers : Answers) (s : DeployState) (r : DeployRequest) (ms : List DeployRequest)
      → (run_round b answers s r ms).pending ≡ []
  unfolding run_round
  pending-run_round answers s r ms = ground arith

  pub tenant_cache-run_round :
      (answers : Answers) (s : DeployState) (r : DeployRequest) (ms : List DeployRequest)
      → (run_round b answers s r ms).tenant_cache ≡ (
          if has_tenant (posted b r ms s.tenant_cache)
          then note_deployed b
              (answers (posted b r ms s.tenant_cache))
              (posted b r ms s.tenant_cache)
              s.tenant_cache
          else s.tenant_cache)
  unfolding run_round
  tenant_cache-run_round answers s r ms = ground arith

  module _ {answers : Answers} {s s' : DeployState} {ds ds' : List Device}
      (w : Round answers s ds s' ds') where
    pub Round-result : s' ≡ run_round b answers s w.first w.others
    Round-result = cc (w.result, handle_next_lem answers s w.first w.others w.waiting)

    pub Round-pending : s'.pending ≡ []
    Round-pending = rw Round-result (pending-run_round answers s w.first w.others)

    abbrev pub body_of : GoMap Json
    body_of = posted b w.first w.others s.tenant_cache

    pub Round-cache : s'.tenant_cache ≡ (
        if has_tenant body_of
        then note_deployed b (answers body_of) body_of s.tenant_cache
        else s.tenant_cache)
    Round-cache = rw Round-result (tenant_cache-run_round answers s w.first w.others)

  InStep-empty : (ds : List Device) → InStep [] ds
  unfolding lookup
  InStep-empty ds = record { at = λ k t e. cc e }

  -- What every run keeps.
  pub record IsSound (s : DeployState) (ds : List Device) : Type 0 where
    pub in_step : InStep s.tenant_cache ds
    pub distinct : AllDistinct s.pending

  pub first_distinct :
      (l : List DeployRequest) (r : DeployRequest) (ms : List DeployRequest)
      → l ≡ r ∷ ms
      → AllDistinct l
      → HasDistinctKeys r.declaration
  first_distinct l r ms e h = (rw e at h).0

  module _
      (merge-none : (errs : List (Option String)) → b.merge_errors errs ≡ none → AllNone errs) where
    pub Round-InStep :
        {answers : Answers} {s s' : DeployState} {ds ds' : List Device}
        → IsSound s ds
        → Round answers s ds s' ds'
        → InStep s'.tenant_cache ds'
    Round-InStep {answers} {s} {s'} {ds} {ds'} h w =
        let body = body_of w in
        let f =
          posted-IsFresh b w.first w.others s.tenant_cache
            (first_distinct s.pending w.first w.others w.waiting h.distinct) in
        elim (Bool-cases (has_tenant body)) [
          | inl some_ ↦
              let p : Posts body (answers body) ds ds' = rw some_ at w.posts in
              let e : s'.tenant_cache ≡ note_deployed b (answers body) body s.tenant_cache =
                rw some_ at (Round-cache w) in
              rw e (
                Posts-InStep b (answers body) body s.tenant_cache f (merge-none (answers body)) p
                  h.in_step)
          | inr none_ ↦
              let p : ds' ≡ ds = rw none_ at w.posts in
              let e : s'.tenant_cache ≡ s.tenant_cache = rw none_ at (Round-cache w) in
              rw (e, p) h.in_step
        ]

    -- If MergeErrors is nil only for nils: in every run, whatever the BIG-IPs answer, a tenant that the
    -- cache holds is on every BIG-IP as the cache has it, and the keys of each waiting request are
    -- distinct.
    pub Reached-IsSound : {s : DeployState} {ds : List Device} → Reached s ds → IsSound s ds
    Reached-IsSound (start ds) = record { in_step = InStep-empty ds; distinct = tt }
    Reached-IsSound (request {s} {ds} r d h) =
        let i = Reached-IsSound h in
        record { in_step = i.in_step; distinct = AllDistinct-append s.pending r i.distinct d }
    Reached-IsSound (round {s} {s'} answers h w) =
        let i = Reached-IsSound h in
        record { in_step = Round-InStep i w; distinct = rw (Round-pending w) tt }
