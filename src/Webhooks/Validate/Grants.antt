-- ===== src/Webhooks/Validate/Grants.antt =====
-- internal/webhooks/webhook_utils.go: canRefer and rgExists, over the listed reference grants.
pub mod Laws
use bigip_kubernetes_gateway.Base.{
  String, Bool, true, false, not, ◌&&◌, ◌||◌, Option, none, some, List, [], ◌∷◌, ◌==◌,
  if◌then◌else◌,
}
use bigip_kubernetes_gateway.Api.{Object, GrantFrom, GrantTo, ReferenceGrant, gateway_group}
use bigip_kubernetes_gateway.Cache.Refer.{grant_from, grant_to}

-- reflect.DeepEqual on the fields of two sources, and of two targets.
unfoldable pub same_from : GrantFrom → GrantFrom → Bool
same_from a b = a.group == b.group && (a.kind == b.kind && a.namespace == b.namespace)

unfoldable pub same_name : Option String → Option String → Bool
same_name none none = true
same_name (some a) (some b) = a == b
same_name _ _ = false

unfoldable pub same_to : GrantTo → GrantTo → Bool
same_to a b = a.group == b.group && (a.kind == b.kind && same_name a.name b.name)

unfoldable pub has_from : GrantFrom → List GrantFrom → Bool
has_from f [] = false
has_from f (g ∷ l) = if same_from g f then true else has_from f l

unfoldable pub has_to : GrantTo → List GrantTo → Bool
has_to t [] = false
has_to t (g ∷ l) = if same_to g t then true else has_to t l

unfoldable pub rg_exists : List ReferenceGrant → GrantFrom → GrantTo → Bool
rg_exists [] f t = false
rg_exists (rg ∷ rgs) f t = if has_from f rg.from && has_to t rg.to then true else rg_exists rgs f t

unfoldable pub can_refer : List ReferenceGrant → Object → Object → Bool
can_refer rgs from to =
    if from.namespace == to.namespace
    then true
    else if not (from.group == gateway_group)
    then false
    else rg_exists rgs (grant_from from) (grant_to to (some to.name))
      || rg_exists rgs (grant_from from) (grant_to to none)
