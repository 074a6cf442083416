-- ===== src/Deploys/Pools.antt =====
-- The partitions that services are parsed to.
use bigip_kubernetes_gateway.Base.{String, Bool, ◌≡◌, List, [], ◌∷◌}
use bigip_kubernetes_gateway.Base.Attempt.{done, >>=-eq-done}
use bigip_kubernetes_gateway.Base.GoMap.{HasDistinctKeys, insert-HasDistinctKeys}
use bigip_kubernetes_gateway.Base.Lists.{All}
use bigip_kubernetes_gateway.Base.Text.{split}
use bigip_kubernetes_gateway.External.{External}
use bigip_kubernetes_gateway.As3.Declaration.{IsPlain}
use bigip_kubernetes_gateway.K8s.Nodes.{NodeCache}
use bigip_kubernetes_gateway.Cache.{SigCache}
use bigip_kubernetes_gateway.Parser.Services.{
  Partitions, put_pool, pool, parse_members_from, parse_service, parse_services_into,
}
use bigip_kubernetes_gateway.Deploys.Merged.{put_pool-All}

module _ ⦃ext : External⦄ (c : SigCache) (is_ipv6 : String → Bool) (nodes : NodeCache) where
  parse_service-All :
      (key : List String) (cfgs out : Partitions)
      → All IsPlain cfgs
      → parse_service is_ipv6 nodes c key cfgs ≡ done out
      → All IsPlain out
  unfolding parse_service
  parse_service-All [] cfgs out h e = cc e
  parse_service-All (ns ∷ []) cfgs out h e = cc e
  parse_service-All (ns ∷ (n ∷ l)) cfgs out h e =
      let (mbs, _, g) = >>=-eq-done (parse_members_from is_ipv6 nodes c ns n) _ e in
      let same : put_pool ns n (pool mbs) cfgs ≡ out = cc in
      rw (← same) (put_pool-All ns n (pool mbs) cfgs h)

  pub parse_services_into-All :
      (keys : List String) (cfgs out : Partitions)
      → All IsPlain cfgs
      → parse_services_into is_ipv6 nodes c keys cfgs ≡ done out
      → All IsPlain out
  unfolding parse_services_into
  parse_services_into-All [] cfgs out h e = let same : cfgs ≡ out = cc in rw (← same) h
  parse_services_into-All (key ∷ keys) cfgs out h e =
      let (mid, f, g) = >>=-eq-done (parse_service is_ipv6 nodes c (split "/" key) cfgs) _ e in
      parse_services_into-All keys mid out (parse_service-All (split "/" key) cfgs mid h f) g

  parse_service-HasDistinctKeys :
      (key : List String) (cfgs out : Partitions)
      → HasDistinctKeys cfgs
      → parse_service is_ipv6 nodes c key cfgs ≡ done out
      → HasDistinctKeys out
  unfolding parse_service put_pool
  parse_service-HasDistinctKeys [] cfgs out h e = cc e
  parse_service-HasDistinctKeys (ns ∷ []) cfgs out h e = cc e
  parse_service-HasDistinctKeys (ns ∷ (n ∷ l)) cfgs out h e =
      let (mbs, _, g) = >>=-eq-done (parse_members_from is_ipv6 nodes c ns n) _ e in
      let same : put_pool ns n (pool mbs) cfgs ≡ out = cc in
      rw (← same) (insert-HasDistinctKeys ns _ cfgs h)

  pub parse_services_into-HasDistinctKeys :
      (keys : List String) (cfgs out : Partitions)
      → HasDistinctKeys cfgs
      → parse_services_into is_ipv6 nodes c keys cfgs ≡ done out
      → HasDistinctKeys out
  unfolding parse_services_into
  parse_services_into-HasDistinctKeys [] cfgs out h e = let same : cfgs ≡ out = cc in rw (← same) h
  parse_services_into-HasDistinctKeys (key ∷ keys) cfgs out h e =
      let (mid, f, g) = >>=-eq-done (parse_service is_ipv6 nodes c (split "/" key) cfgs) _ e in
      parse_services_into-HasDistinctKeys keys mid out
        (parse_service-HasDistinctKeys (split "/" key) cfgs mid h f) g
