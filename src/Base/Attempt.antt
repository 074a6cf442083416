-- ===== src/Base/Attempt.antt =====
-- Calls that return a value or an error of Go, by its text, or that panic; and numbers as text.
pub mod Decimal
use Prim.Native.Nat.{ℕ, zero, suc, ◌/◌, ◌%◌}
use Prim.Native.String.{String}
use mathlib.Core.Path.{◌≡◌, refl}
use mathlib.Core.Bool.{true, false}
use mathlib.Core.List.{List, [], ◌∷◌}
use bigip_kubernetes_gateway.Base.Tests.{ltb, nat_eq, if◌then◌else◌, Outcome, returns, panics}
use bigip_kubernetes_gateway.Base.Text.{◌⧺◌}

pub data Attempt {ℓ} (A : Type ℓ) : Type ℓ where
  done : A → Attempt A
  fails : String → Attempt A
  breaks : Attempt A

infixl 5 ◌>>=◌
abbrev pub ◌>>=◌ {ℓ κ} : {A : Type ℓ} {B : Type κ} → Attempt A → (A → Attempt B) → Attempt B
done a >>= k = k a
fails e >>= k = fails e
breaks >>= k = breaks

-- A call that has no error result.
abbrev pub of_outcome {ℓ} : {A : Type ℓ} → Outcome A → Attempt A
of_outcome (returns a) = done a
of_outcome panics = breaks

-- What a chain of calls did, when it returned.
pub >>=-eq-done {ℓ κ} :
    {A : Type ℓ} {B : Type κ} (m : Attempt A) (k : A → Attempt B) {b : B}
    → (m >>= k) ≡ done b
    → (a : A) × (m ≡ done a) × (k a ≡ done b)
>>=-eq-done (done a) k h = (a, refl, h)
>>=-eq-done (fails e) k h = cc
>>=-eq-done breaks k h = cc

digit_at : List String → ℕ → String
digit_at [] d = ""
digit_at (t ∷ ts) zero = t
digit_at (t ∷ ts) (suc d) = digit_at ts d

digit : ℕ → String
unfolding digit_at
digit d = digit_at ("0" ∷ "1" ∷ "2" ∷ "3" ∷ "4" ∷ "5" ∷ "6" ∷ "7" ∷ "8" ∷ "9" ∷ []) d

-- One more round than the number itself is enough, since each round divides by ten.
digits_of : ℕ → ℕ → String
unfolding digit
digits_of zero n = ""
digits_of (suc f) n = elim (ltb n 10) [
  | true ↦ digit n
  | false ↦ digits_of f (n / 10) ⧺ digit (n % 10)
]

-- The %d of fmt.
unfoldable pub decimal : ℕ → String
unfolding digits_of
decimal n = digits_of (suc n) n

decimal_port : decimal 8443 ≡ "8443"
unfolding decimal
decimal_port = refl
