-- ===== src/IRules/Matches.antt =====
-- internal/pkg/iruletmpl_parser.go: the conditions of an iRule.
use bigip_kubernetes_gateway.Base.{
  String, Option, none, some, List, [], ◌∷◌, ◌++◌, map, ◌==◌, if◌then◌else◌, or_default,
}
use bigip_kubernetes_gateway.Base.Attempt.{Attempt, done, breaks, ◌>>=◌}
use bigip_kubernetes_gateway.Base.Text.{join, ◌⧺◌}
use bigip_kubernetes_gateway.Api.{PathMatch, ValueMatch, RouteMatch}

unfoldable pub or_hostnames : String → List String → String
or_hostnames prefix hostnames = join " or " (map (λ hst. prefix ⧺ " \"" ⧺ hst ⧺ "\"") hostnames)

-- The switch on the type of a path's match; its value is followed in each case.
abbrev path_condition : String → String → List String
path_condition type value =
    if type == "PathPrefix"
    then ("[HTTP::path] starts_with \"" ⧺ value ⧺ "\"") ∷ []
    else if type == "Exact"
    then ("[HTTP::path] eq \"" ⧺ value ⧺ "\"") ∷ []
    else if type == "RegularExpression"
    then ("[HTTP::path matches \"" ⧺ value ⧺ "\"") ∷ []
    else []

-- A type that the switch does not know leaves the value alone.
unfoldable pub path_value : String → Option String → Attempt (List String)
path_value type (some value) = done (path_condition type value)
path_value type none = elim (path_condition type "") [ [] ↦ done [] | c ∷ cs ↦ breaks ]

unfoldable pub path_conditions : Option PathMatch → Attempt (List String)
path_conditions none = done []
path_conditions (some path) = path_value (or_default "PathPrefix" path.type) path.value

abbrev value_condition : String → ValueMatch → List String
value_condition subject v =
    let type = or_default "Exact" v.type in
    if type == "Exact"
    then (subject ⧺ " \"" ⧺ v.name ⧺ "\"] eq \"" ⧺ v.value ⧺ "\"") ∷ []
    else if type == "RegularExpression"
    then (subject ⧺ " \"" ⧺ v.name ⧺ "\"] matches \"" ⧺ v.value ⧺ "\"") ∷ []
    else []

unfoldable pub value_conditions : String → List ValueMatch → List String
value_conditions subject [] = []
value_conditions subject (v ∷ vs) = value_condition subject v ++ value_conditions subject vs

abbrev method_condition : Option String → List String
method_condition none = []
method_condition (some method) = ("[HTTP::method] eq \"" ⧺ method ⧺ "\"") ∷ []

-- The conditions of one match, in the order of the code.
unfoldable pub single_match : RouteMatch → Attempt (List String)
single_match m = do
  paths ← path_conditions m.path
  done (
      paths
      ++ value_conditions "[HTTP::header" m.headers
      ++ method_condition m.method
      ++ value_conditions "[URI::query [HTTP::uri]" m.query_params)

unfoldable pub match_conditions : List RouteMatch → Attempt (List String)
match_conditions [] = done []
match_conditions (m ∷ ms) = do
  single ← single_match m
  rest ← match_conditions ms
  done (join " and " single ∷ rest)

unfoldable pub parse_irule_matches : List RouteMatch → Attempt String
parse_irule_matches matches = do
  conditions ← match_conditions matches
  done (join " or " conditions)
