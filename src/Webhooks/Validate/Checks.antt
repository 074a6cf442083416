-- ===== src/Webhooks/Validate/Checks.antt =====
-- A check either passes, and leaves the invalid references and types as they are, or adds to them.
-- What holds of the checks of a loop's rounds holds of the loop.
use bigip_kubernetes_gateway.Base.{
  String, ◌≡◌, ◌≢◌, refl, ◌∙◌, ap, ◌↔◌, ◌⊎◌, inl, inr, none, List, [], ◌∷◌, ◌++◌,
}
use bigip_kubernetes_gateway.External.{NoneEmpty}
use bigip_kubernetes_gateway.Webhooks.Validate.{Invalids, no_invalids, add_ref, add_type, verdict}
use bigip_kubernetes_gateway.Webhooks.Validate.Format.{
  fmt_invalids-two, fmt_invalids-nil, NoneEmpty-append,
}

-- Something was found.
abbrev pub IsBad : Invalids → Type 0
IsBad i = (i.refs ≢ []) ⊎ (i.types ≢ [])

-- Every message has a text.
abbrev pub IsSpoken : Invalids → Type 0
IsSpoken i = NoneEmpty i.refs × NoneEmpty i.types

pub record Checks (f : Invalids → Invalids) (Ok : Type 0) : Type 0 where
  pub decides : Ok ⊎ ¬ Ok
  pub passes : Ok → (i : Invalids) → f i ≡ i
  pub fails : ¬ Ok → (i : Invalids) → IsBad (f i)
  pub keeps : (i : Invalids) → IsBad i → IsBad (f i)
  pub speaks : (i : Invalids) → IsSpoken i → IsSpoken (f i)

append-ne-nil : (l : List String) (m : String) → l ++ m ∷ [] ≢ []
append-ne-nil [] m e = cc
append-ne-nil (a ∷ l) m e = cc

module _ {f : Invalids → Invalids} {Ok : Type 0} where
  pub Checks-passing : Ok → ((i : Invalids) → f i ≡ i) → Checks f Ok
  Checks-passing ok same = record {
    decides = inl ok;
    passes = λ o i. same i;
    fails = λ n i. absurd (n ok);
    keeps = λ i b. rw same b;
    speaks = λ i s. rw same s;
  }

  pub Checks-bad_ref :
      (msg : String) → msg ≢ "" → ¬ Ok → ((i : Invalids) → f i ≡ add_ref msg i) → Checks f Ok
  Checks-bad_ref msg spoken no_ok same = record {
    decides = inr no_ok;
    passes = λ o i. absurd (no_ok o);
    fails = λ n i. rw same (inl (append-ne-nil i.refs msg));
    keeps = λ i b. rw same (inl (append-ne-nil i.refs msg));
    speaks = λ i s. rw same (NoneEmpty-append i.refs (msg ∷ []) s.0 (spoken, tt), s.1);
  }

  pub Checks-bad_type :
      (msg : String) → msg ≢ "" → ¬ Ok → ((i : Invalids) → f i ≡ add_type msg i) → Checks f Ok
  Checks-bad_type msg spoken no_ok same = record {
    decides = inr no_ok;
    passes = λ o i. absurd (no_ok o);
    fails = λ n i. rw same (inr (append-ne-nil i.types msg));
    keeps = λ i b. rw same (inr (append-ne-nil i.types msg));
    speaks = λ i s. rw same (s.0, NoneEmpty-append i.types (msg ∷ []) s.1 (spoken, tt));
  }

  pub Checks-iff : {Q : Type 0} → Checks f Ok → (Ok → Q) → (Q → Ok) → Checks f Q
  Checks-iff c to from = record {
    decides = elim c.decides [ inl o ↦ inl (to o) | inr n ↦ inr (λ q. n (from q)) ];
    passes = λ q i. c.passes (from q) i;
    fails = λ n i. c.fails (λ o. n (to o)) i;
    keeps = c.keeps;
    speaks = c.speaks;
  }

  -- A check that does the same.
  pub Checks-same :
      {g : Invalids → Invalids} → Checks f Ok → ((i : Invalids) → g i ≡ f i) → Checks g Ok
  Checks-same c same = record {
    decides = c.decides;
    passes = λ o i. rw same (c.passes o i);
    fails = λ n i. rw same (c.fails n i);
    keeps = λ i b. rw same (c.keeps i b);
    speaks = λ i s. rw same (c.speaks i s);
  }

  -- The validation's answer is nil exactly if the check passes.
  pub verdict_iff : Checks f Ok → (verdict (f no_invalids) ≡ none) ↔ Ok
  verdict_iff c =
      let o = f no_invalids in
      (
        λ e. elim c.decides [
          | inl ok ↦ ok
          | inr bad ↦
              let spoken = c.speaks no_invalids (tt, tt) in
              let empty = fmt_invalids-two o.refs o.types spoken.0 spoken.1 e in
              elim (c.fails bad no_invalids) [
                | inl r ↦ absurd (r empty.0)
                | inr t ↦ absurd (t empty.1)
              ]
        ],
        λ ok. ap verdict (c.passes ok no_invalids) ∙ fmt_invalids-nil,
      )

both : {P Q : Type 0} → P ⊎ ¬ P → Q ⊎ ¬ Q → (P × Q) ⊎ ¬ (P × Q)
both (inl p) (inl q) = inl (p, q)
both (inr n) q = inr (λ h. n h.0)
both (inl p) (inr n) = inr (λ h. n h.1)

module _ {f g : Invalids → Invalids} {P Q : Type 0} where
  -- One check after the other.
  pub Checks-then : Checks f P → Checks g Q → Checks (λ i. g (f i)) (P × Q)
  Checks-then c d = record {
    decides = both c.decides d.decides;
    passes = λ o i. d.passes o.1 (f i) ∙ c.passes o.0 i;
    fails = λ n i. elim c.decides [
      | inr np ↦ d.keeps (f i) (c.fails np i)
      | inl p ↦ d.fails (λ q. n (p, q)) (f i)
    ];
    keeps = λ i b. d.keeps (f i) (c.keeps i b);
    speaks = λ i s. d.speaks (f i) (c.speaks i s);
  }

pub Checks-done : Checks (λ i. i) Unit
Checks-done = Checks-passing tt (λ i. refl)
