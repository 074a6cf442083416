-- ===== src/Base/GoMap.antt =====
-- Go's `map[string]V` as an association list. Iteration goes down the list; a theorem about every
-- map is thus one about every order of iteration.
use Prim.Native.String.{String}
use mathlib.Core.Path.{◌≡◌, refl, ◌∙◌}
use mathlib.Core.Option.{Option, none, some}
use mathlib.Core.List.{List, [], ◌∷◌}
use native.Mathlib.Omega.{arith}
use text.Mathlib.Text.{◌==◌}
use text.Mathlib.TextEquality.{eq_iff}
use bigip_kubernetes_gateway.Base.Tests.{if◌then◌else◌, Bool-cases}
use mathlib.Core.Logic.{inl, inr}
use text.Mathlib.TextPositions.{eq_refl}

abbrev pub GoMap {ℓ} : Type ℓ → Type ℓ
GoMap V = List (String × V)

module _ {ℓ} {V : Type ℓ} where
  -- v, ok := m[key]
  unfoldable pub lookup : String → GoMap V → Option V
  lookup key [] = none
  lookup key ((name, value) ∷ rest) = if name == key then some value else lookup key rest

  -- m[key] = value
  unfoldable pub insert : String → V → GoMap V → GoMap V
  insert key value [] = (key, value) ∷ []
  insert key value ((name, old) ∷ rest) =
      let after = insert key value rest in
      if name == key then (name, value) ∷ rest else (name, old) ∷ after

  -- delete(m, k)
  unfoldable pub delete : String → GoMap V → GoMap V
  delete k [] = []
  delete k ((j, v) ∷ m) = let rest = delete k m in if j == k then rest else (j, v) ∷ rest

  -- for _, v := range m
  unfoldable pub values : GoMap V → List V
  values [] = []
  values ((k, v) ∷ m) = v ∷ values m

  -- What every Go map satisfies: a key stands in it once.
  abbrev pub HasDistinctKeys : GoMap V → Type ℓ
  HasDistinctKeys [] = Unit
  HasDistinctKeys ((k, v) ∷ m) = (lookup k m ≡ none) × HasDistinctKeys m

  -- Afterwards a look at another key finds what it found, and a look at this key finds the value.
  pub lookup-insert :
      (key asked : String) (value : V) (entries : GoMap V)
      → lookup asked (insert key value entries)
        ≡ (if key == asked then some value else lookup asked entries)
  unfolding lookup insert
  lookup-insert key asked value [] = refl
  lookup-insert key asked value ((name, old) ∷ rest) =
      let ih = lookup-insert key asked value rest in
      ground (arith, ih, eq_iff name asked, eq_iff name key, eq_iff key asked)

  pub lookup-delete :
      (k j : String) (m : GoMap V) → lookup j (delete k m) ≡ (if k == j then none else lookup j m)
  unfolding lookup delete
  lookup-delete k j [] = ground arith
  lookup-delete k j ((i, v) ∷ m) =
      ground (arith, lookup-delete k j m, eq_iff i k, eq_iff i j, eq_iff k j)

  pub insert-HasDistinctKeys :
      (k : String) (v : V) (m : GoMap V) → HasDistinctKeys m → HasDistinctKeys (insert k v m)
  unfolding lookup insert
  insert-HasDistinctKeys k v [] h = (refl, tt)
  insert-HasDistinctKeys k v ((j, w) ∷ m) h =
      ground
        (arith, eq_iff j k, eq_iff k j, lookup-insert k j v m, insert-HasDistinctKeys k v m h.1)

  pub delete-HasDistinctKeys :
      (k : String) (m : GoMap V) → HasDistinctKeys m → HasDistinctKeys (delete k m)
  unfolding delete
  delete-HasDistinctKeys k [] h = tt
  delete-HasDistinctKeys k ((j, w) ∷ m) h =
      ground (arith, eq_iff k j, lookup-delete k j m, delete-HasDistinctKeys k m h.1)

  -- Deleting a key that is not there changes nothing.
  pub delete_absent : (k : String) (m : GoMap V) → lookup k m ≡ none → delete k m ≡ m
  unfolding lookup delete
  delete_absent k [] h = refl
  delete_absent k ((j, v) ∷ m) h = ground (arith, delete_absent k m)

  pub lookup-insert_same : (k : String) (v : V) (m : GoMap V) → lookup k (insert k v m) ≡ some v
  lookup-insert_same k v m = lookup-insert k k v m ∙ rw eq_refl refl

  pub lookup-delete_same : (k : String) (m : GoMap V) → lookup k (delete k m) ≡ none
  lookup-delete_same k m = lookup-delete k k m ∙ rw eq_refl refl

  -- Writing the same value twice changes nothing.
  pub insert_again : (k : String) (v : V) (m : GoMap V) → insert k v (insert k v m) ≡ insert k v m
  unfolding insert
  insert_again k v [] = rw eq_refl refl
  insert_again k v ((j, w) ∷ m) = elim (Bool-cases (j == k)) [
    | inl y ↦ rw (y, y) refl
    | inr n ↦ rw (n, n, insert_again k v m) refl
  ]

pub ruleset map_laws = (lookup-insert, lookup-delete)
