-- ===== src/Deploys/Merged.antt =====
-- The partitions that configurations are put into, and their merge.
use bigip_kubernetes_gateway.Base.{
  String, eq_iff, ◌≡◌, refl, ◌∙◌, inl, inr, Bool-cases, Option-cases, ◌==◌, none, some, [], ◌∷◌,
  or_default,
}
use bigip_kubernetes_gateway.Base.GoMap.{
  GoMap, lookup, insert, lookup-insert, HasDistinctKeys, insert-HasDistinctKeys,
}
use bigip_kubernetes_gateway.Base.Lists.{All}
use bigip_kubernetes_gateway.Base.Text.{◌⧺◌}
use bigip_kubernetes_gateway.Json.{Json}
use bigip_kubernetes_gateway.As3.Declaration.{IsPlain}
use bigip_kubernetes_gateway.Parser.Services.{Partitions, put_pool}
use bigip_kubernetes_gateway.Deploys.{merge_configs}

pub All-insert :
    (p : String) (f : GoMap (GoMap Json)) (cfgs : Partitions)
    → lookup "class" f ≡ none
    → All IsPlain cfgs
    → All IsPlain (insert p f cfgs)
unfolding insert
All-insert p f [] h ps = (h, tt)
All-insert p f ((q, g) ∷ cfgs) h (plain, ps) = elim (Bool-cases (q == p)) [
  | inl y ↦ rw (y, All) (h, ps)
  | inr n ↦ rw (n, All) (plain, All-insert p f cfgs h ps)
]

pub found_plain :
    (k : String) (f : GoMap (GoMap Json)) (cfgs : Partitions)
    → All IsPlain cfgs
    → lookup k cfgs ≡ some f
    → lookup "class" f ≡ none
unfolding lookup
found_plain k f [] ps e = cc e
found_plain k f ((q, g) ∷ cfgs) (plain, ps) e = elim (Bool-cases (q == k)) [
  | inl y ↦ let same : g ≡ f = cc (rw y at e) in rw (← same) plain
  | inr n ↦ found_plain k f cfgs ps (rw n at e)
]

put_plain :
    (n : String) (p : Json) (f : GoMap (GoMap Json))
    → lookup "class" f ≡ none
    → lookup "class" (
        insert "serviceMain"
          (insert ("ltm/pool/" ⧺ n) p (or_default [] (lookup "serviceMain" f)))
          f)
      ≡ none
put_plain n p f h = lookup-insert "serviceMain" "class" _ f ∙ h

pub put_pool-All :
    (ns n : String) (p : Json) (cfgs : Partitions)
    → All IsPlain cfgs
    → All IsPlain (put_pool ns n p cfgs)
unfolding put_pool
put_pool-All ns n p cfgs ps = elim (Option-cases (lookup ns cfgs)) [
  | inl absent ↦
      rw (absent, All)
        (All-insert ns _ cfgs (put_plain n p (("serviceMain", []) ∷ []) (unfold lookup in refl)) ps)
  | inr (f, found) ↦
      rw (found, All) (All-insert ns _ cfgs (put_plain n p f (found_plain ns f cfgs ps found)) ps)
]

merge_configs-other :
    (k : String) (ncfgs scfgs : Partitions)
    → lookup k scfgs ≡ none
    → lookup k (merge_configs ncfgs scfgs) ≡ lookup k ncfgs
unfolding merge_configs lookup
merge_configs-other k ncfgs [] h = refl
merge_configs-other k ncfgs ((p, f) ∷ scfgs) h = elim (Bool-cases (p == k)) [
  | inl y ↦ cc (rw y at h)
  | inr n ↦
      merge_configs-other k (insert p f ncfgs) scfgs (rw n at h)
      ∙ (lookup-insert p k f ncfgs ∙ rw n refl)
]

-- The partition of the services goes before that of the class.
pub lookup-merge_configs :
    (k : String) (f : GoMap (GoMap Json)) (ncfgs scfgs : Partitions)
    → HasDistinctKeys scfgs
    → lookup k ncfgs ≡ some f
    → lookup k (merge_configs ncfgs scfgs) ≡ some (or_default f (lookup k scfgs))
unfolding merge_configs lookup
lookup-merge_configs k f ncfgs [] d h = h
lookup-merge_configs k f ncfgs ((p, g) ∷ scfgs) (absent, d) h = elim (Bool-cases (p == k)) [
  | inl y ↦
      merge_configs-other k (insert p g ncfgs) scfgs (rw ((eq_iff p k).0 y) at absent)
      ∙ (lookup-insert p k g ncfgs ∙ rw y refl)
  | inr n ↦ rw n (
      lookup-merge_configs k f (insert p g ncfgs) scfgs d
        (lookup-insert p k g ncfgs ∙ (rw n refl ∙ h)))
]

pub merge_configs-HasDistinctKeys :
    (ncfgs scfgs : Partitions) → HasDistinctKeys ncfgs → HasDistinctKeys (merge_configs ncfgs scfgs)
unfolding merge_configs
merge_configs-HasDistinctKeys ncfgs [] h = h
merge_configs-HasDistinctKeys ncfgs ((p, f) ∷ scfgs) h =
    merge_configs-HasDistinctKeys (insert p f ncfgs) scfgs (insert-HasDistinctKeys p f ncfgs h)

pub All-merge_configs :
    (ncfgs scfgs : Partitions)
    → All IsPlain ncfgs
    → All IsPlain scfgs
    → All IsPlain (merge_configs ncfgs scfgs)
unfolding merge_configs
All-merge_configs ncfgs [] h ps = h
All-merge_configs ncfgs ((p, f) ∷ scfgs) h (plain, ps) =
    All-merge_configs (insert p f ncfgs) scfgs (All-insert p f ncfgs plain h) ps
