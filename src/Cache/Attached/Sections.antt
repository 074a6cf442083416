-- ===== src/Cache/Attached/Sections.antt =====
-- The listener of a section's name, in the map of a gateway's listeners and in the loop over them.
use text.Mathlib.TextLemmas.{append_cancel_left}
use bigip_kubernetes_gateway.Base.{
  String, ◌≡◌, refl, sym, ◌∙◌, false, Option, none, some, List, [], ◌∷◌, ◌==◌, eq_iff,
  if◌then◌else◌, arith, inl, inr, Bool-cases, or_default,
}
use bigip_kubernetes_gateway.Base.GoMap.{GoMap, lookup, lookup-insert}
use bigip_kubernetes_gateway.Base.Text.{join}
use bigip_kubernetes_gateway.Api.{Gateway, HttpRoute, Listener, ParentRef, Namespace}
use bigip_kubernetes_gateway.External.{External}
use bigip_kubernetes_gateway.Names.{gw_listener_name, hr_parent_name}
use bigip_kubernetes_gateway.RouteMatch.{route_matches, http_route_type}
use bigip_kubernetes_gateway.Cache.{SigCache}
use bigip_kubernetes_gateway.Cache.Attached.{scan_section, listener_map}

-- The listener of a name.
abbrev pub named_listener : String → List Listener → Option Listener
named_listener sn [] = none
named_listener sn (ls ∷ rest) = if ls.name == sn then some ls else named_listener sn rest

-- The Gateway API wants the names of a gateway's listeners to be distinct.
abbrev pub HasDistinctNames : List Listener → Type 0
HasDistinctNames [] = Unit
HasDistinctNames (ls ∷ rest) = (named_listener ls.name rest ≡ none) × HasDistinctNames rest

abbrev pub section_key : Gateway → String → String
section_key gw sn = join "." ("gw" ∷ gw.namespace ∷ gw.name ∷ sn ∷ [])

section_key-inj : (gw : Gateway) (a b : String) → section_key gw a ≡ section_key gw b → a ≡ b
unfolding join
section_key-inj gw a b e = append_cancel_left "." a b (
    append_cancel_left gw.name _ _ (
      append_cancel_left "." _ _ (
        append_cancel_left gw.namespace _ _
          (append_cancel_left "." _ _ (append_cancel_left "gw" _ _ e)))))

abbrev pub or_else : Option Listener → Option Listener → Option Listener
or_else none o = o
or_else (some ls) o = some ls

listener_key : (gw : Gateway) (ls : Listener) → gw_listener_name gw ls ≡ section_key gw ls.name
unfolding gw_listener_name
listener_key gw ls = refl

pub parent_key :
    (gw : Gateway) (hr : HttpRoute) (pr : ParentRef) (sn : String)
    → or_default hr.namespace pr.namespace ≡ gw.namespace
    → pr.name ≡ gw.name
    → pr.section_name ≡ some sn
    → hr_parent_name hr pr ≡ section_key gw sn
unfolding hr_parent_name
parent_key gw hr pr sn e f g = rw (e, f, g)

section_key_iff : (gw : Gateway) (a b : String) → (section_key gw a == section_key gw b) ≡ (a == b)
section_key_iff gw a b = elim (Bool-cases (a == b)) [
  | inl y ↦ rw y (rw ((eq_iff a b).0 y) ((eq_iff (section_key gw b) (section_key gw b)).1 refl))
  | inr n ↦ elim (Bool-cases (section_key gw a == section_key gw b)) [
    | inl y ↦ absurd (cc (n, (eq_iff a b).1 (section_key-inj gw a b ((eq_iff _ _).0 y))))
    | inr m ↦ rw (n, m)
  ]
]

module _ ⦃ext : External⦄ where
  -- The map of a gateway's listeners has under a section's key the listener of the section's name.
  pub lookup-listener_map :
      (gw : Gateway) (sn : String) (lss : List Listener) (m : GoMap Listener)
      → HasDistinctNames lss
      → lookup (section_key gw sn) (listener_map gw lss m)
        ≡ or_else (named_listener sn lss) (lookup (section_key gw sn) m)
  unfolding listener_map
  lookup-listener_map gw sn [] m d = refl
  lookup-listener_map gw sn (ls ∷ rest) m (absent, d) =
      lookup-listener_map gw sn rest _ d ∙ elim (Bool-cases (ls.name == sn)) [
        | inl y ↦
            let e : ls.name ≡ sn = (eq_iff ls.name sn).0 y in
            rw (y, rw e at absent, lookup-insert, listener_key, section_key_iff, y)
        | inr n ↦ rw (n, lookup-insert, listener_key, section_key_iff, n)
      ]

  module _ (c : SigCache) (hr : HttpRoute) (gw : Gateway) (sn : String) where
    scan_absent :
        (lss : List Listener) → named_listener sn lss ≡ none → scan_section c hr gw sn lss ≡ false
    unfolding scan_section
    scan_absent [] e = refl
    scan_absent (ls ∷ rest) e = elim (Bool-cases (ls.name == sn)) [
      | inl y ↦ cc (rw y at e)
      | inr n ↦ rw n (scan_absent rest (rw n at e))
    ]

    pub route_matches-none :
        (ns : Option Namespace) → route_matches gw.namespace none ns http_route_type ≡ false
    unfolding route_matches
    route_matches-none ns = refl

    -- The loop over the listeners asks the one of the section's name.
    pub scan_section-eq :
        (lss : List Listener)
        → HasDistinctNames lss
        → scan_section c hr gw sn lss
          ≡ route_matches gw.namespace
              (named_listener sn lss)
              (lookup hr.namespace c.namespace)
              http_route_type
    unfolding scan_section
    scan_section-eq [] d = sym (route_matches-none _)
    scan_section-eq (ls ∷ rest) (absent, d) = elim (Bool-cases (ls.name == sn)) [
      | inl y ↦
          let e : ls.name ≡ sn = (eq_iff ls.name sn).0 y in
          rw (y, scan_absent rest (rw e at absent)) (ground arith)
      | inr n ↦ rw n (scan_section-eq rest d)
    ]
