-- ===== src/Cache/Attached/ObjectKeys.antt =====
-- The keys of objects, on names that Kubernetes admits.
use text.Mathlib.TextLemmas.{append-eq-nil_iff}
use bigip_kubernetes_gateway.Base.{
  String, ◌≡◌, ◌≢◌, refl, sym, ◌∙◌, Option, none, some, List, [], ◌∷◌, or_default,
}
use bigip_kubernetes_gateway.Base.Text.{join, join-inj}
use bigip_kubernetes_gateway.Api.{HttpRoute, ParentRef}
use bigip_kubernetes_gateway.External.{External, IsLawful}
use bigip_kubernetes_gateway.Cache.{SigCache, object_key}
use bigip_kubernetes_gateway.Cache.Refer.Keys.{IsName, IsOptionalName}
use bigip_kubernetes_gateway.Cache.Attached.{ref_key}

pub namespace_named :
    (hr : HttpRoute) (o : Option String)
    → IsName hr.namespace
    → IsOptionalName o
    → IsName (or_default hr.namespace o)
namespace_named hr none h k = h
namespace_named hr (some n) h k = k

module _ ⦃ext : External⦄ (lawful : IsLawful ext) where
  object_key-eq-join :
      (ns n : String) → IsName ns → IsName n → object_key ns n ≡ join "/" (ns ∷ n ∷ [])
  object_key-eq-join ns n h k = lawful.keyname-eq-join _ (h.ne_empty, (k.ne_empty, tt))

  pub object_key-inj :
      (ns n ms m : String)
      → IsName ns
      → IsName n
      → IsName ms
      → IsName m
      → object_key ns n ≡ object_key ms m
      → ◌≡◌ {A = List String} (ns ∷ n ∷ []) (ms ∷ m ∷ [])
  object_key-inj ns n ms m a b c d e =
      join-inj "/" ns ms (n ∷ []) (m ∷ []) a.lacks (b.lacks, tt) c.lacks (d.lacks, tt)
        (sym (object_key-eq-join ns n a b) ∙ e ∙ object_key-eq-join ms m c d)

  joined-ne-empty : (ns n : String) → IsName ns → join "/" (ns ∷ n ∷ []) ≢ ""
  unfolding join
  joined-ne-empty ns n h e = h.ne_empty (append-eq-nil_iff.0 e).0

  -- Keyname of a single key is the key.
  pub ref_key-eq :
      (c : SigCache) (hr : HttpRoute) (pr : ParentRef)
      → IsName (or_default hr.namespace pr.namespace)
      → IsName pr.name
      → ref_key c hr pr ≡ object_key (or_default hr.namespace pr.namespace) pr.name
  unfolding ref_key
  ref_key-eq c hr pr h k =
      let key = object_key (or_default hr.namespace pr.namespace) pr.name in
      let joined = object_key-eq-join (or_default hr.namespace pr.namespace) pr.name h k in
      lawful.keyname-eq-join (key ∷ []) (rw joined (joined-ne-empty _ _ h), tt)
      ∙ unfold join in refl
