-- ===== src/Parser/VirtualNames.antt =====
-- The virtual servers of a gateway have names of their own.
use text.Mathlib.TextLemmas.{append_cancel_left}
use bigip_kubernetes_gateway.Base.{ℕ, String, ◌≡◌, sym, ap, ◌∙◌, [], ◌∷◌, ◌++◌}
use bigip_kubernetes_gateway.Base.Attempt.{decimal}
use bigip_kubernetes_gateway.Base.Attempt.Decimal.{decimal-inj, Lacks-decimal}
use bigip_kubernetes_gateway.Base.Text.{◌⧺◌, join, split, split-append, join-split}
use bigip_kubernetes_gateway.Api.{Gateway, Listener}
use bigip_kubernetes_gateway.Names.{gw_listener_name}
use bigip_kubernetes_gateway.As3.{last, all_but_last}
use bigip_kubernetes_gateway.As3.TypeAndName.{last-append, all_but_last-append}
use bigip_kubernetes_gateway.Parser.Gateways.{RuleNames, virtual_key}

-- A text and a number that are put together with a dot.
numbered-inj :
    (s t : String) (i j : ℕ) → s ⧺ "." ⧺ decimal i ≡ t ⧺ "." ⧺ decimal j → (i ≡ j) × (s ≡ t)
numbered-inj s t i j e =
    let parts : split "." s ++ decimal i ∷ [] ≡ split "." t ++ decimal j ∷ [] =
      sym (split-append "." s (decimal i) (Lacks-decimal i))
      ∙ ap (split ".") e
      ∙ split-append "." t (decimal j) (Lacks-decimal j) in
    let digits : decimal i ≡ decimal j =
      sym (last-append (split "." s) (decimal i))
      ∙ ap last parts
      ∙ last-append (split "." t) (decimal j) in
    let names : split "." s ≡ split "." t =
      sym (all_but_last-append (split "." s) (decimal i))
      ∙ ap all_but_last parts
      ∙ all_but_last-append (split "." t) (decimal j) in
    (decimal-inj i j digits, sym (join-split "." s) ∙ ap (join ".") names ∙ join-split "." t)

gw_listener_name-inj :
    (gw : Gateway) (ls ls' : Listener)
    → gw_listener_name gw ls ≡ gw_listener_name gw ls'
    → ls.name ≡ ls'.name
unfolding gw_listener_name join
gw_listener_name-inj gw ls ls' e =
    let e1 = append_cancel_left "gw" _ _ e in
    let e2 = append_cancel_left "." _ _ e1 in
    let e3 = append_cancel_left gw.namespace _ _ e2 in
    let e4 = append_cancel_left "." _ _ e3 in
    let e5 = append_cancel_left gw.name _ _ e4 in append_cancel_left "." ls.name ls'.name e5

-- Two virtual servers of a gateway that have the same key belong to the same address, by its number,
-- and to listeners of the same name.
pub virtual_key-inj :
    (gw : Gateway) (irules : RuleNames) (i j : ℕ) (ls ls' : Listener)
    → virtual_key gw irules i ls ≡ virtual_key gw irules j ls'
    → (i ≡ j) × (ls.name ≡ ls'.name)
virtual_key-inj gw irules i j ls ls' e =
    let (number, name) =
      numbered-inj (gw_listener_name gw ls) (gw_listener_name gw ls') i j
        (append_cancel_left "ltm/virtual/" _ _ e) in
    (number, gw_listener_name-inj gw ls ls' name)
