-- ===== src/Cache/Refer/Keys.antt =====
-- The keys of the index tell sources and targets apart: stringifyRGFrom and stringifyRGTo are
-- injective on names that Kubernetes admits.
use bigip_kubernetes_gateway.Base.{
  String, ◌≡◌, ◌≢◌, refl, sym, ap, ◌∙◌, Option, none, some, List, [], ◌∷◌, arith, ◌==◌, eq_iff,
  if◌then◌else◌, inl, inr, Bool-cases, or_default,
}
use bigip_kubernetes_gateway.Base.Text.{join-inj, Lacks}
use bigip_kubernetes_gateway.Api.{GrantFrom, GrantTo}
use bigip_kubernetes_gateway.External.{External, IsLawful}
use bigip_kubernetes_gateway.Grants.{stringify_rg_from, stringify_rg_to}

-- A name of Kubernetes: not empty, without a slash, neither "-" nor "*".
pub record IsName (s : String) : Type 0 where
  pub ne_empty : s ≢ ""
  pub ne_dash : s ≢ "-"
  pub ne_star : s ≢ "*"
  pub lacks : Lacks "/" s

-- A group may be empty, which is the core group.
pub record IsGroup (s : String) : Type 0 where
  pub ne_dash : s ≢ "-"
  pub lacks : Lacks "/" s

pub record IsFrom (f : GrantFrom) : Type 0 where
  pub group : IsGroup f.group
  pub kind : IsName f.kind
  pub namespace : IsName f.namespace

abbrev pub IsOptionalName : Option String → Type 0
IsOptionalName none = Unit
IsOptionalName (some n) = IsName n

pub record IsTo (t : GrantTo) : Type 0 where
  pub group : IsGroup t.group
  pub kind : IsName t.kind
  pub name : IsOptionalName t.name

abbrev dashed : String → String
dashed s = if s == "" then "-" else s

dashed-inj : (a b : String) → a ≢ "-" → b ≢ "-" → dashed a ≡ dashed b → a ≡ b
dashed-inj a b h k e = ground (arith, eq_iff a "", eq_iff b "")

dashed-ne-empty : (a : String) → dashed a ≢ ""
dashed-ne-empty a = ground (arith, eq_iff a "", eq_iff "-" "")

Lacks-dashed : (a : String) → Lacks "/" a → Lacks "/" (dashed a)
Lacks-dashed a h = elim (Bool-cases (a == "")) [ inl y ↦ rw y (omega arith, tt) | inr n ↦ rw n h ]

starred-inj :
    (a b : Option String)
    → IsOptionalName a
    → IsOptionalName b
    → or_default "*" a ≡ or_default "*" b
    → a ≡ b
starred-inj none none h k e = refl
starred-inj none (some b) h k e = absurd (k.ne_star (sym e))
starred-inj (some a) none h k e = absurd (h.ne_star e)
starred-inj (some a) (some b) h k e = ap some e

starred-ne-empty : (a : Option String) → IsOptionalName a → or_default "*" a ≢ ""
starred-ne-empty none h = ground (arith, eq_iff "*" "")
starred-ne-empty (some a) h = h.ne_empty

Lacks-starred : (a : Option String) → IsOptionalName a → Lacks "/" (or_default "*" a)
Lacks-starred none h = (omega arith, tt)
Lacks-starred (some a) h = h.lacks

cons-inj :
    (a b : String) (l m : List String) → ◌≡◌ {A = List String} (a ∷ l) (b ∷ m) → (a ≡ b) × (l ≡ m)
cons-inj a b l m e = (cc, cc)

module _ ⦃ext : External⦄ (lawful : IsLawful ext) where
  pub stringify_rg_from-inj :
      (f g : GrantFrom) → IsFrom f → IsFrom g → stringify_rg_from f ≡ stringify_rg_from g → f ≡ g
  unfolding stringify_rg_from
  stringify_rg_from-inj f g h k e =
      let e1 =
        sym (
          lawful.keyname-eq-join _
            (dashed-ne-empty f.group, (h.kind.ne_empty, (dashed-ne-empty f.namespace, tt))))
        ∙ e
        ∙ lawful.keyname-eq-join _
            (dashed-ne-empty g.group, (k.kind.ne_empty, (dashed-ne-empty g.namespace, tt))) in
      let all =
        join-inj "/" (dashed f.group) (dashed g.group) (f.kind ∷ dashed f.namespace ∷ [])
          (g.kind ∷ dashed g.namespace ∷ []) (Lacks-dashed f.group h.group.lacks)
          (h.kind.lacks, (Lacks-dashed f.namespace h.namespace.lacks, tt))
          (Lacks-dashed g.group k.group.lacks)
          (k.kind.lacks, (Lacks-dashed g.namespace k.namespace.lacks, tt)) e1 in
      let (eg, rest) = cons-inj _ _ _ _ all in
      let (ek, rest') = cons-inj _ _ _ _ rest in
      let (en, _) = cons-inj _ _ _ _ rest' in
      let group = dashed-inj f.group g.group h.group.ne_dash k.group.ne_dash eg in
      let namespace =
        dashed-inj f.namespace g.namespace h.namespace.ne_dash k.namespace.ne_dash en in
      cc

  pub stringify_rg_to-inj :
      (ms ns : String) (t u : GrantTo)
      → IsName ms
      → IsName ns
      → IsTo t
      → IsTo u
      → stringify_rg_to ms t ≡ stringify_rg_to ns u
      → (ms ≡ ns) × (t ≡ u)
  unfolding stringify_rg_to
  stringify_rg_to-inj ms ns t u m n h k e =
      let e1 =
        sym (
          lawful.keyname-eq-join _ (
            dashed-ne-empty t.group,
            (h.kind.ne_empty, (m.ne_empty, (starred-ne-empty t.name h.name, tt))),
          ))
        ∙ e
        ∙ lawful.keyname-eq-join _ (
          dashed-ne-empty u.group,
          (k.kind.ne_empty, (n.ne_empty, (starred-ne-empty u.name k.name, tt))),
        ) in
      let all =
        join-inj "/" (dashed t.group) (dashed u.group) (t.kind ∷ ms ∷ or_default "*" t.name ∷ [])
          (u.kind ∷ ns ∷ or_default "*" u.name ∷ []) (Lacks-dashed t.group h.group.lacks)
          (h.kind.lacks, (m.lacks, (Lacks-starred t.name h.name, tt)))
          (Lacks-dashed u.group k.group.lacks)
          (k.kind.lacks, (n.lacks, (Lacks-starred u.name k.name, tt))) e1 in
      let (eg, rest) = cons-inj _ _ _ _ all in
      let (ek, rest') = cons-inj _ _ _ _ rest in
      let (en, rest'') = cons-inj _ _ _ _ rest' in
      let (em, _) = cons-inj _ _ _ _ rest'' in
      let group = dashed-inj t.group u.group h.group.ne_dash k.group.ne_dash eg in
      let name = starred-inj t.name u.name h.name k.name em in (en, cc)
