-- ===== src/IRules/Failures.antt =====
-- A route with a filter that mirrors requests has no iRule.
use mathlib.Core.List.Memᴰ
use mathlib.Core.List.Memᴰ.{Memᴰ}
use bigip_kubernetes_gateway.Base.{ℕ, ◌+◌, String, ◌≡◌, ◌≢◌, refl, inl, inr, List, [], ◌∷◌}
use bigip_kubernetes_gateway.Base.Attempt.{done, fails, >>=-eq-done}
use bigip_kubernetes_gateway.Api.{RouteFilter, RouteRule, HttpRoute}
use bigip_kubernetes_gateway.External.{External}
use bigip_kubernetes_gateway.Cache.{SigCache}
use bigip_kubernetes_gateway.IRules.{request_rule, request_rules, execute_template}
use bigip_kubernetes_gateway.IRules.Matches.{parse_irule_matches}
use bigip_kubernetes_gateway.IRules.Filters.{
  req_filter_actions, req_actions, parse_irule_req_filters,
}

module _ (hr : HttpRoute) (f : RouteFilter) (mirrors : f.type ≡ "RequestMirror") where
  mirror_fails : req_filter_actions hr f ≡ fails "filter type 'RequestMirror' not supported"
  unfolding req_filter_actions
  mirror_fails = rw mirrors refl

  req_actions-fails :
      (fs : List RouteFilter) (a : List String) → Memᴰ f fs → req_actions hr fs ≢ done a
  unfolding req_actions
  req_actions-fails [] a i e = Memᴰ.not-nil i
  req_actions-fails (g ∷ fs) a i e =
      let (b, p, q) = >>=-eq-done (req_filter_actions hr g) _ e in
      elim (Memᴰ.cases_cons i) [
        | inl same ↦ cc (p, rw same at mirror_fails)
        | inr j ↦
            let (rest, p', _) = >>=-eq-done (req_actions hr fs) _ q in
            req_actions-fails fs rest j p'
      ]

  module _ ⦃ext : External⦄ (c : SigCache) (rule : RouteRule) (has : Memᴰ f rule.filters) where
    request_rule-fails : (i : ℕ) (t : String) → request_rule c hr i rule ≢ done t
    unfolding request_rule parse_irule_req_filters
    request_rule-fails i t e =
        let (m, _, q) = >>=-eq-done (parse_irule_matches rule.matches) _ e in
        let (s, p, _) = >>=-eq-done (parse_irule_req_filters rule.filters hr) _ q in
        let (a, p', _) = >>=-eq-done (req_actions hr rule.filters) _ p in
        req_actions-fails rule.filters a has p'

    request_rules-fails :
        (i : ℕ) (rules : List RouteRule) (t : String)
        → Memᴰ rule rules
        → request_rules c hr i rules ≢ done t
    unfolding request_rules
    request_rules-fails i [] t k e = Memᴰ.not-nil k
    request_rules-fails i (r ∷ rules) t k e =
        let (s, p, q) = >>=-eq-done (request_rule c hr i r) _ e in
        elim (Memᴰ.cases_cons k) [
          | inl same ↦ request_rule-fails i s (rw (← same) at p)
          | inr j ↦
              let (rest, p', _) = >>=-eq-done (request_rules c hr (i + 1) rules) _ q in
              request_rules-fails (i + 1) rules rest j p'
        ]

    pub execute_template-fails : (t : String) → Memᴰ rule hr.rules → execute_template c hr ≢ done t
    unfolding execute_template
    execute_template-fails t k e =
        let (s, p, _) = >>=-eq-done (request_rules c hr 0 hr.rules) _ e in
        request_rules-fails 0 hr.rules s k p
