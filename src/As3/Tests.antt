-- ===== src/As3/Tests.antt =====
-- The declaration of a small configuration.
use bigip_kubernetes_gateway.Base.{◌≡◌, refl, true, false, some, [], ◌∷◌, arith}
use bigip_kubernetes_gateway.Base.GoMap.{GoMap, lookup}
use bigip_kubernetes_gateway.Base.Text.{◌⧺◌, split, join}
use bigip_kubernetes_gateway.Json.{Json, text}
use bigip_kubernetes_gateway.As3.{type_and_name, is_skipped, application_of}
use bigip_kubernetes_gateway.As3.TypeAndName.{type_and_name-join}
use bigip_kubernetes_gateway.As3.Application.{lookup-application_of}

type_and_name_example : type_and_name ("ltm/profile/http" ⧺ "/" ⧺ "hr") ≡ ("ltm/profile/http", "hr")
type_and_name_example = type_and_name-join "ltm/profile/http" "hr" (omega arith, (omega arith, tt))

abbrev folder : GoMap Json
folder = ("ltm/pool/web", text "pool") ∷ ("net/arp/10.0.0.1", text "arp") ∷ []

true-ne-false : true ≡ false → ⊥
true-ne-false e = cc

lookup_application_example :
    lookup (type_and_name "ltm/pool/web").1 (application_of folder) ≡ some (text "pool")
unfolding lookup type_and_name is_skipped join split
lookup_application_example =
    lookup-application_of "ltm/pool/web" folder (text "pool") (refl, (refl, tt))
      ((λ e s. refl), ((λ e s. absurd (true-ne-false s)), tt)) refl refl
