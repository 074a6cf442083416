-- ===== src/Base/Text.antt =====
-- strings.Join and strings.Split of Go's standard library, for separators of one character.
use Prim.Native.Char.{Char, code}
use Prim.Native.String
use Prim.Native.String.{String, [], ◌∷◌}
use mathlib.Core.Path.{◌≡◌, refl, sym, ap, ◌∙◌}
use mathlib.Core.Logic.{◌≢◌}
use mathlib.Core.List.{List, [], ◌∷◌, ◌++◌}
use native.Mathlib.Omega.{arith}
use text.Mathlib.TextEquality.{Char-path}
use mathlib.Core.Logic.{inl, inr}
use text.Mathlib.TextLemmas.{nil-append, cons-append}
use bigip_kubernetes_gateway.Base.Tests.{if◌then◌else◌, nat_eq, Bool-cases}

infixr 65 ◌⧺◌
abbrev pub ◌⧺◌ : String → String → String
s ⧺ t = String.◌++◌ s t

-- strings.Join(parts, sep)
unfoldable pub join : String → List String → String
join sep [] = ""
join sep (p ∷ []) = p
join sep (p ∷ (q ∷ ps)) = p ⧺ sep ⧺ join sep (q ∷ ps)

abbrev onto_first : Char → List String → List String
onto_first c [] = (c ∷ []) ∷ []
onto_first c (p ∷ ps) = (c ∷ p) ∷ ps

-- strings.Split(s, sep)
unfoldable pub split : Char → String → List String
split sep [] = "" ∷ []
split sep (c ∷ s) =
    let rest = split sep s in if nat_eq (code c) (code sep) then "" ∷ rest else onto_first c rest

abbrev pub Lacks : Char → String → Type 0
Lacks sep [] = Unit
Lacks sep (c ∷ s) = (code c ≢ code sep) × Lacks sep s

abbrev pub AllLack : Char → List String → Type 0
AllLack sep [] = Unit
AllLack sep (p ∷ ps) = Lacks sep p × AllLack sep ps

split_one : (sep : Char) (p : String) → Lacks sep p → split sep p ≡ p ∷ []
unfolding split
split_one sep [] h = refl
split_one sep (c ∷ s) (n, h) = rw (split_one sep s h) (ground arith)

split-cut :
    (sep : Char) (p s : String) → Lacks sep p → split sep (p ⧺ (sep ∷ []) ⧺ s) ≡ p ∷ split sep s
unfolding split
split-cut sep [] s h = rw (nil-append, cons-append, nil-append) (ground arith)
split-cut sep (c ∷ p) s (n, h) = rw (cons-append, split-cut sep p s h) (ground arith)

-- Splitting what was joined gives the parts back, if none holds the separator.
pub split-join :
    (sep : Char) (p : String) (ps : List String)
    → Lacks sep p
    → AllLack sep ps
    → split sep (join (sep ∷ []) (p ∷ ps)) ≡ p ∷ ps
unfolding join
split-join sep p [] h k = split_one sep p h
split-join sep p (q ∷ ps) h (n, k) =
    split-cut sep p (join (sep ∷ []) (q ∷ ps)) h ∙ ap (λ r. p ∷ r) (split-join sep q ps n k)

-- Two lists of parts without the separator that join to one text are the same list.
pub join-inj :
    (sep : Char) (p q : String) (ps qs : List String)
    → Lacks sep p
    → AllLack sep ps
    → Lacks sep q
    → AllLack sep qs
    → join (sep ∷ []) (p ∷ ps) ≡ join (sep ∷ []) (q ∷ qs)
    → ◌≡◌ {A = List String} (p ∷ ps) (q ∷ qs)
join-inj sep p q ps qs h hs k ks e =
    sym (split-join sep p ps h hs) ∙ ap (split sep) e ∙ split-join sep q qs k ks

split-cons : (sep : Char) (s : String) → (p : String) × (ps : List String) × (split sep s ≡ p ∷ ps)
unfolding split
split-cons sep [] = ("", [], refl)
split-cons sep (c ∷ s) =
    let (p, ps, e) = split-cons sep s in
    elim (Bool-cases (nat_eq (code c) (code sep))) [
      | inl y ↦ ("", p ∷ ps, rw (y, e))
      | inr n ↦ (c ∷ p, ps, rw (n, e))
    ]

-- Splitting at a separator that is added before a last part without it.
pub split-append :
    (sep : Char) (s n : String)
    → Lacks sep n
    → split sep (s ⧺ (sep ∷ []) ⧺ n) ≡ split sep s ++ n ∷ []
unfolding split
split-append sep [] n h = rw (nil-append, cons-append, nil-append, split_one sep n h) (ground arith)
split-append sep (c ∷ s) n h =
    let (p, ps, e) = split-cons sep s in
    rw (cons-append, split-append sep s n h, e)
      (elim (Bool-cases (nat_eq (code c) (code sep))) [ inl y ↦ rw y | inr n ↦ rw n ])

join-onto_first :
    (sep : String) (c : Char) (p : String) (ps : List String)
    → join sep (onto_first c (p ∷ ps)) ≡ c ∷ join sep (p ∷ ps)
unfolding join
join-onto_first sep c p [] = refl
join-onto_first sep c p (q ∷ ps) = cons-append c p (sep ⧺ join sep (q ∷ ps))

join-nil_first :
    (sep : Char) (p : String) (ps : List String)
    → join (sep ∷ []) ("" ∷ p ∷ ps) ≡ sep ∷ join (sep ∷ []) (p ∷ ps)
unfolding join
join-nil_first sep p ps = rw (nil-append, cons-append, nil-append)

-- Joining what was split gives the text back.
pub join-split : (sep : Char) (s : String) → join (sep ∷ []) (split sep s) ≡ s
unfolding split
join-split sep [] = unfold join in refl
join-split sep (c ∷ s) =
    let (p, ps, e) = split-cons sep s in
    let ih : join (sep ∷ []) (p ∷ ps) ≡ s = rw e at (join-split sep s) in
    elim (Bool-cases (nat_eq (code c) (code sep))) [
      | inl y ↦
          rw (y, e, Char-path c sep (ground arith)) (join-nil_first sep p ps ∙ ap (λ r. sep ∷ r) ih)
      | inr n ↦ rw (n, e) (join-onto_first (sep ∷ []) c p ps ∙ ap (λ r. c ∷ r) ih)
    ]
