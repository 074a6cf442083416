-- ===== src/Webhooks/Validate/Format.antt =====
-- internal/webhooks/webhook_utils.go: fmtInvalids.
use text.Mathlib.TextLemmas.{append-eq-nil_iff}
use bigip_kubernetes_gateway.Base.{
  String, ◌≡◌, ◌≢◌, refl, Option, none, some, List, [], ◌∷◌, ◌++◌, ◌==◌, if◌then◌else◌, eq_iff, inl,
  inr, Bool-cases,
}
use bigip_kubernetes_gateway.Base.Text.{join}
use bigip_kubernetes_gateway.External.{NoneEmpty}

concat_all : List String → List (List String) → List String
concat_all a [] = a
concat_all a (i ∷ b) = concat_all (a ++ i) b

-- A % in a message, which fmt.Errorf takes for a verb, is not in the model: only the text of the error
-- would be another.
unfoldable pub fmt_invalids : List String → List (List String) → Option String
unfolding concat_all
fmt_invalids a b = let msg = join ";" (concat_all a b) in if msg == "" then none else some msg

-- A list of messages that have a text joins to a text.
join-ne-empty : (m : String) (l : List String) → m ≢ "" → join ";" (m ∷ l) ≢ ""
unfolding join
join-ne-empty m [] h e = h e
join-ne-empty m (n ∷ l) h e = h (append-eq-nil_iff.0 e).0

fmt_text :
    (l : List String)
    → NoneEmpty l
    → (if join ";" l == "" then none else some (join ";" l)) ≡ none
    → l ≡ []
fmt_text [] h e = refl
fmt_text (m ∷ l) (n, h) e = elim (Bool-cases (join ";" (m ∷ l) == "")) [
  | inl y ↦ absurd (join-ne-empty m l n ((eq_iff _ _).0 y))
  | inr y ↦ cc (rw y at e)
]

pub NoneEmpty-append : (a b : List String) → NoneEmpty a → NoneEmpty b → NoneEmpty (a ++ b)
NoneEmpty-append [] b h k = k
NoneEmpty-append (m ∷ a) b (n, h) k = (n, NoneEmpty-append a b h k)

-- Two lists of messages that have texts give nil only if both are empty.
pub fmt_invalids-two :
    (a b : List String)
    → NoneEmpty a
    → NoneEmpty b
    → fmt_invalids a (b ∷ []) ≡ none
    → (a ≡ []) × (b ≡ [])
unfolding fmt_invalids
fmt_invalids-two [] b h k e = (refl, fmt_text b k e)
fmt_invalids-two (m ∷ a) b h k e = cc (fmt_text (m ∷ (a ++ b)) (NoneEmpty-append (m ∷ a) b h k) e)

pub fmt_invalids-nil : fmt_invalids [] ([] ∷ []) ≡ none
unfolding fmt_invalids join
fmt_invalids-nil = refl
