-- ===== src/Base/Lists.antt =====
-- Loops over slices that keep or collect, membership of what they return, and counting.
use Prim.Native.Nat.{ℕ, suc, ◌<◌}
use Prim.Native.String.{String}
use mathlib.Core.Path.{◌≡◌, refl, sym}
use mathlib.Core.Logic.{inl, inr}
use mathlib.Core.Bool.{Bool, true}
use mathlib.Core.List.{List, [], ◌∷◌}
use mathlib.Core.List.Memᴰ
use mathlib.Core.List.Memᴰ.{Memᴰ, head, tail}
use native.Mathlib.Omega.{arith}
use text.Mathlib.Text.{◌==◌}
use text.Mathlib.TextEquality.{eq_iff}
use bigip_kubernetes_gateway.Base.Tests.{if◌then◌else◌, Bool-cases}

module _ {ℓ} {A : Type ℓ} where
  abbrev pub length : List A → ℕ
  length [] = 0
  length (x ∷ xs) = suc (length xs)

  -- A range loop that appends the elements that pass a test.
  unfoldable pub select : (A → Bool) → List A → List A
  select p [] = []
  select p (x ∷ xs) = if p x then x ∷ select p xs else select p xs

  pub Mem-select :
      {a : A} (p : A → Bool) (xs : List A) → Memᴰ a xs → p a ≡ true → Memᴰ a (select p xs)
  unfolding select
  Mem-select p [] m h = absurd (Memᴰ.not-nil m)
  Mem-select p (x ∷ xs) (head e) h = rw (← e, h) (head refl)
  Mem-select p (x ∷ xs) (tail m) h = elim (Bool-cases (p x)) [
    | inl y ↦ rw y (tail (Mem-select p xs m h))
    | inr n ↦ rw n (Mem-select p xs m h)
  ]

  pub Mem_of_select :
      {a : A} (p : A → Bool) (xs : List A) → Memᴰ a (select p xs) → Memᴰ a xs × (p a ≡ true)
  unfolding select
  Mem_of_select p [] m = absurd (Memᴰ.not-nil m)
  Mem_of_select {a} p (x ∷ xs) m = elim (Bool-cases (p x)) [
    | inl y ↦ elim (Memᴰ.cases_cons (rw y at m)) [
      | inl e ↦ (head e, rw e y)
      | inr k ↦ let (i, h) = Mem_of_select p xs k in (tail i, h)
    ]
    | inr n ↦ let (i, h) = Mem_of_select p xs (rw n at m) in (tail i, h)
  ]

-- What holds of every element.
abbrev pub All {ℓ κ} : {A : Type ℓ} → (A → Type κ) → List A → Type κ
All P [] = Unit
All P (x ∷ xs) = P x × All P xs

-- How often a text stands in a list.
unfoldable pub count : String → List String → ℕ
count a [] = 0
count a (x ∷ xs) = if x == a then suc (count a xs) else count a xs

pub Mem_of_count-pos : (a : String) (xs : List String) → 0 < count a xs → Memᴰ a xs
unfolding count
Mem_of_count-pos a [] h = absurd (omega arith)
Mem_of_count-pos a (x ∷ xs) h = elim (Bool-cases (x == a)) [
  | inl y ↦ head (sym ((eq_iff x a).0 y))
  | inr n ↦ tail (Mem_of_count-pos a xs (rw n at h))
]

pub count-pos_of_Mem : (a : String) (xs : List String) → Memᴰ a xs → 0 < count a xs
unfolding count
count-pos_of_Mem a [] m = absurd (Memᴰ.not-nil m)
count-pos_of_Mem a (x ∷ xs) (head e) = ground (arith, eq_iff x a)
count-pos_of_Mem a (x ∷ xs) (tail m) = ground (arith, count-pos_of_Mem a xs m)
