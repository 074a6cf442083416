-- ===== src/Parser/Rules.antt =====
-- The iRules that a virtual server names, and the resources under whose keys they stand.
use mathlib.Core.List.Memᴰ
use mathlib.Core.List.Memᴰ.{Memᴰ, head, tail}
use bigip_kubernetes_gateway.Base.{
  String, ◌≡◌, refl, sym, ap, ◌∙◌, inl, inr, ◌⊎◌, Bool-cases, ◌==◌, Option, some, List, [], ◌∷◌,
  ◌++◌, map, or_default,
}
use bigip_kubernetes_gateway.Base.GoMap.{GoMap, lookup, insert, lookup-insert}
use bigip_kubernetes_gateway.Base.Text.{◌⧺◌}
use bigip_kubernetes_gateway.Json.{Json, text, array, object, Items, nil, item, items, fields}
use bigip_kubernetes_gateway.Parser.Gateways.{RuleNames, rules_at}

abbrev pub texts : Items → List String
texts nil = []
texts (item (text s) is) = s ∷ texts is
texts (item v is) = texts is

abbrev pub texts_in : Option Json → List String
texts_in (some (array is)) = texts is
texts_in _ = []

-- The names under "iRules".
abbrev pub rule_names : Json → List String
rule_names (object m) = texts_in (lookup "iRules" (fields m))
rule_names _ = []

abbrev pub HasRule : GoMap Json → String → Type 0
HasRule rlt r = (v : Json) × (lookup ("ltm/rule/" ⧺ r) rlt ≡ some v)

-- A rule that stands there, or is among those that are still to be made.
abbrev pub Known : List String → GoMap Json → String → Type 0
Known ps rlt r = HasRule rlt r ⊎ Memᴰ r ps

abbrev pub AllKnown : List String → GoMap Json → List String → Type 0
AllKnown ps rlt rs = (r : String) → Memᴰ r rs → Known ps rlt r

-- Every rule that a resource names is known.
abbrev pub Covered : List String → GoMap Json → Type 0
Covered ps rlt = (k : String) (v : Json) → lookup k rlt ≡ some v → AllKnown ps rlt (rule_names v)

pub texts-items : (rs : List String) → texts (items (map text rs)) ≡ rs
texts-items [] = refl
texts-items (r ∷ rs) = ap (λ l. r ∷ l) (texts-items rs)

pub HasRule-insert :
    (k : String) (v : Json) (rlt : GoMap Json) (r : String)
    → HasRule rlt r
    → HasRule (insert k v rlt) r
HasRule-insert k v rlt r (u, found) = elim (Bool-cases (k == "ltm/rule/" ⧺ r)) [
  | inl y ↦ (v, lookup-insert k _ v rlt ∙ rw y refl)
  | inr n ↦ (u, lookup-insert k _ v rlt ∙ (rw n refl ∙ found))
]

pub Known-insert :
    (ps : List String) (k : String) (v : Json) (rlt : GoMap Json) (r : String)
    → Known ps rlt r
    → Known ps (insert k v rlt) r
Known-insert ps k v rlt r (inl h) = inl (HasRule-insert k v rlt r h)
Known-insert ps k v rlt r (inr p) = inr p

pub Covered-insert :
    (ps : List String) (k : String) (v : Json) (rlt : GoMap Json)
    → AllKnown ps rlt (rule_names v)
    → Covered ps rlt
    → Covered ps (insert k v rlt)
Covered-insert ps k v rlt named h j u e r i = elim (Bool-cases (k == j)) [
  | inl y ↦
      let found : some v ≡ some u = rw y at (sym (lookup-insert k j v rlt) ∙ e) in
      let same : v ≡ u = cc in Known-insert ps k v rlt r (named r (rw same i))
  | inr n ↦
      let found : lookup j rlt ≡ some u = rw n at (sym (lookup-insert k j v rlt) ∙ e) in
      Known-insert ps k v rlt r (h j u found r i)
]

-- A resource that names no rule.
pub Covered-insert_plain :
    (ps : List String) (k : String) (v : Json) (rlt : GoMap Json)
    → rule_names v ≡ []
    → Covered ps rlt
    → Covered ps (insert k v rlt)
Covered-insert_plain ps k v rlt e h =
    Covered-insert ps k v rlt (λ r i. absurd (Memᴰ.not-nil (rw e at i))) h

-- The names of every listener's rules are known.
abbrev pub AllNamed : List String → GoMap Json → RuleNames → Type 0
AllNamed ps rlt irules = (vs : String) → AllKnown ps rlt (rules_at vs irules)

pub AllNamed-insert :
    (ps : List String) (rlt : GoMap Json) (k : String) (rs : List String) (irules : RuleNames)
    → AllKnown ps rlt rs
    → AllNamed ps rlt irules
    → AllNamed ps rlt (insert k rs irules)
AllNamed-insert ps rlt k rs irules new h vs r i = elim (Bool-cases (k == vs)) [
  | inl y ↦
      let e : rules_at vs (insert k rs irules) ≡ rs =
        ap (or_default []) (lookup-insert k vs rs irules) ∙ rw y refl in
      new r (rw e at i)
  | inr n ↦
      let e : rules_at vs (insert k rs irules) ≡ rules_at vs irules =
        ap (or_default []) (lookup-insert k vs rs irules) ∙ rw n refl in
      h vs r (rw e at i)
]

pub AllKnown-append :
    (ps : List String) (rlt : GoMap Json) (rs : List String) (n : String)
    → AllKnown ps rlt rs
    → Known ps rlt n
    → AllKnown ps rlt (rs ++ n ∷ [])
AllKnown-append ps rlt [] n h k r i = elim (Memᴰ.cases_cons i) [
  | inl e ↦ rw e k
  | inr j ↦ absurd (Memᴰ.not-nil j)
]
AllKnown-append ps rlt (m ∷ rs) n h k r i = elim (Memᴰ.cases_cons i) [
  | inl e ↦ rw e (h m (head refl))
  | inr j ↦ AllKnown-append ps rlt rs n (λ s l. h s (tail l)) k r j
]
