-- ===== src/IRules.antt =====
-- internal/pkg/iruletmpl_parser.go and the templates under internal/pkg/irule_templates: the iRule of
-- a route. text/template of Go's standard library copies the text between the actions, stops at the
-- first error, and takes a panic of a function that it calls for an error.
pub mod Matches
pub mod Filters
pub mod Pools
pub mod Failures
use bigip_kubernetes_gateway.Base.{
  ℕ, ◌+◌, String, Option, none, some, List, [], ◌∷◌, ◌++◌, if◌then◌else◌,
}
use bigip_kubernetes_gateway.Base.Attempt.{Attempt, done, fails, breaks, ◌>>=◌, decimal}
use bigip_kubernetes_gateway.Base.GoMap.{GoMap, insert}
use bigip_kubernetes_gateway.Base.Text.{◌⧺◌}
use bigip_kubernetes_gateway.Json.{Json, text, object, members}
use bigip_kubernetes_gateway.Api.{RouteRule, HttpRoute}
use bigip_kubernetes_gateway.External.{External}
use bigip_kubernetes_gateway.Names.{hr_name}
use bigip_kubernetes_gateway.Cache.{SigCache}
use Matches.{or_hostnames, parse_irule_matches}
use Filters.{parse_irule_req_filters, parse_irule_resp_filters}
use Pools.{parse_pool_weight}

module _ ⦃ext : External⦄ (c : SigCache) (hr : HttpRoute) where
  -- The body of the range of "InitPools".
  init_pool : ℕ → RouteRule → String
  init_pool i rule =
      "\n      array unset weights *\n      array unset static::pools_"
      ⧺ decimal i
      ⧺ " *\n      set index 0\n\n      array set weights { "
      ⧺ parse_pool_weight rule.backend_refs hr c
      ⧺ " }\n      foreach name [array names weights] {\n        for { set i 0 }  { $i < $weights($name) }  { incr i } {\n            set static::pools_"
      ⧺ decimal i
      ⧺ "($index) $name\n            incr index\n        }\n      }\n      set static::pools_"
      ⧺ decimal i
      ⧺ "_size [array size static::pools_"
      ⧺ decimal i
      ⧺ "]\n  "

  init_pools : ℕ → List RouteRule → String
  unfolding init_pool
  init_pools i [] = ""
  init_pools i (rule ∷ rules) = init_pool i rule ⧺ init_pools (i + 1) rules

  -- The body of the range of "RequestRules".
  pub request_rule : ℕ → RouteRule → Attempt String
  request_rule i rule = do
    matches ← parse_irule_matches rule.matches
    filters ← parse_irule_req_filters rule.filters hr
    done (
        "\n    \n    if { "
        ⧺ matches
        ⧺ " } {\n      "
        ⧺ filters
        ⧺ "\n      if { $static::pools_"
        ⧺ decimal i
        ⧺ "_size != 0 }{\n        set pool $static::pools_"
        ⧺ decimal i
        ⧺ "([expr {int(rand()*$static::pools_"
        ⧺ decimal i
        ⧺ "_size)}])\n        pool $pool\n      }\n      return\n    }\n  ")

  pub request_rules : ℕ → List RouteRule → Attempt String
  unfolding request_rule
  request_rules i [] = done ""
  request_rules i (rule ∷ rules) = do
    t ← request_rule i rule
    rest ← request_rules (i + 1) rules
    done (t ⧺ rest)

  pub response_rules : List RouteRule → Attempt String
  response_rules [] = done ""
  response_rules (rule ∷ rules) = do
    t ← parse_irule_resp_filters rule.filters hr
    rest ← response_rules rules
    done ("\n    " ⧺ t ⧺ "\n  " ⧺ rest)

  -- What a template writes before and after its range.
  abbrev ranged : String → String → String
  ranged body after = "\n  \n  \n\n  " ⧺ body ⧺ after

  -- The `if .Spec.Hostnames` of "irule.tmpl".
  abbrev guarded : List String → String → String
  guarded [] rules = "\n  " ⧺ rules ⧺ "\n"
  guarded (h ∷ hs) rules =
      "\n  if { " ⧺ or_hostnames "[HTTP::host] matches" (h ∷ hs) ⧺ " }{\n    " ⧺ rules ⧺ "\n  }\n"

  unfoldable pub execute_template : Attempt String
  unfolding init_pools request_rules response_rules
  execute_template = do
    requests ← request_rules 0 hr.rules
    responses ← response_rules hr.rules
    done (
        "when RULE_INIT {\n"
        ⧺ ranged (init_pools 0 hr.rules) "\n\n"
        ⧺ "\n}\n\nwhen HTTP_REQUEST {\n"
        ⧺ guarded hr.hostnames (ranged requests "\n\n")
        ⧺ "\n}\n\nwhen HTTP_RESPONSE {\n"
        ⧺ ranged responses "\n"
        ⧺ "\n}")

  abbrev pub irule : String → Json
  irule body = object (members (("class", text "iRule") ∷ ("iRule", text body) ∷ []))

  abbrev pub template_error : String
  template_error = "cannot parse HttpRoute to iRule by template irule.tmpl"

  unfoldable pub parse_irules_from : GoMap Json → Attempt (GoMap Json)
  parse_irules_from rlt = elim execute_template [
    | done body ↦ done (insert ("ltm/rule/" ⧺ hr_name hr) (irule body) rlt)
    | fails e ↦ fails template_error
    | breaks ↦ fails template_error
  ]
