-- ===== src/External/Sample/Lawful.antt =====
-- The concrete functions of the tests do what the gateway relies on.
use mathlib.Core.List.Memᴰ
use mathlib.Core.List.Memᴰ.{Memᴰ, head, tail}
use bigip_kubernetes_gateway.Base.{
  String, ◌≡◌, refl, sym, ◌↔◌, true, Option, none, some, List, [], ◌∷◌, ◌==◌, eq_iff, inl, inr,
  Bool-cases, Option-cases,
}
use bigip_kubernetes_gateway.External.{IsLawful, AllNone}
use bigip_kubernetes_gateway.External.Sample.{contains, unified, merge_errors, sample}

contains_iff : (l : List String) (s : String) → (contains l s ≡ true) ↔ Memᴰ s l
contains_iff [] s = (λ e. cc, λ m. absurd (Memᴰ.not-nil m))
contains_iff (a ∷ l) s = elim (Bool-cases (a == s)) [
  | inl y ↦ (λ e. head (sym ((eq_iff a s).0 y)), λ m. rw y)
  | inr n ↦ (
    λ e. tail ((contains_iff l s).0 (rw n at e)),
    λ m. elim (Memᴰ.cases_cons m) [
      | inl e ↦ absurd (cc (n, (eq_iff a s).1 (sym e)))
      | inr k ↦ rw n ((contains_iff l s).1 k)
    ],
  )
]

Mem_of_unified : (l : List String) (s : String) → Memᴰ s (unified l) → Memᴰ s l
Mem_of_unified [] s m = m
Mem_of_unified (a ∷ l) s m = elim (Bool-cases (contains l a)) [
  | inl y ↦ tail (Mem_of_unified l s (rw y at m))
  | inr n ↦ elim (Memᴰ.cases_cons (rw n at m)) [
    | inl e ↦ head e
    | inr k ↦ tail (Mem_of_unified l s k)
  ]
]

Mem-unified : (l : List String) (s : String) → Memᴰ s l → Memᴰ s (unified l)
Mem-unified [] s m = m
Mem-unified (a ∷ l) s m = elim (Bool-cases (contains l a)) [
  | inl y ↦ rw y (elim (Memᴰ.cases_cons m) [
    | inl e ↦ Mem-unified l s (rw e ((contains_iff l a).0 y))
    | inr k ↦ Mem-unified l s k
  ])
  | inr n ↦ rw n (elim (Memᴰ.cases_cons m) [ inl e ↦ head e | inr k ↦ tail (Mem-unified l s k) ])
]

pub merge_errors_iff : (l : List (Option String)) → (merge_errors l ≡ none) ↔ AllNone l
merge_errors_iff [] = (λ e. tt, λ e. refl)
merge_errors_iff (none ∷ l) =
    let (to, from) = merge_errors_iff l in (λ e. (refl, to e), λ a. from a.1)
merge_errors_iff (some s ∷ l) = elim (Option-cases (merge_errors l)) [
  | inl n ↦ (λ e. cc (rw n at e), λ a. cc (a.0))
  | inr (e', y) ↦ (λ e. cc (rw y at e), λ a. cc (a.0))
]

pub sample-IsLawful : IsLawful sample
sample-IsLawful = record {
  keyname-eq-join = λ l h. refl;
  unified-mem = λ l s. (Mem_of_unified l s, Mem-unified l s);
  contains_iff = contains_iff;
  merge_errors_iff = merge_errors_iff;
}
