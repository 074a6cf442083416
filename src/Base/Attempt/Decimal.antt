-- ===== src/Base/Attempt/Decimal.antt =====
-- Numbers as text: the fuel is enough, and a number is read back.
use Prim.Native.Char.{Char, code}
use Prim.Native.Nat.{ℕ, zero, suc, ◌+◌, ◌-◌, ◌*◌, ◌/◌, ◌%◌, ◌<◌, ◌≤◌}
use Prim.Native.String.{String, [], ◌∷◌}
use mathlib.Core.Path.{◌≡◌, refl, sym, ap, ◌∙◌}
use mathlib.Core.Logic.{inl, inr}
use native.Mathlib.Omega.{arith}
use text.Mathlib.TextLemmas.{nil-append, cons-append}
use bigip_kubernetes_gateway.Base.Tests.{ltb, Bool-cases}
use bigip_kubernetes_gateway.Base.Text.{◌⧺◌, Lacks}
use bigip_kubernetes_gateway.Base.Attempt.{digit_at, digit, digits_of, decimal}

-- The number that a text of digits stands for, after the digits that were read before.
value : ℕ → String → ℕ
value acc [] = acc
value acc (c ∷ s) = value (acc * 10 + (code c - 48)) s

value-append : (s t : String) (acc : ℕ) → value acc (s ⧺ t) ≡ value (value acc s) t
unfolding value
value-append [] t acc = rw nil-append refl
value-append (c ∷ s) t acc = rw cons-append (value-append s t (acc * 10 + (code c - 48)))

value-digit : (acc d : ℕ) → d < 10 → value acc (digit d) ≡ acc * 10 + d
unfolding value digit digit_at
value-digit acc zero h = omega arith
value-digit acc (suc zero) h = omega arith
value-digit acc (suc (suc zero)) h = omega arith
value-digit acc (suc (suc (suc zero))) h = omega arith
value-digit acc (suc (suc (suc (suc zero)))) h = omega arith
value-digit acc (suc (suc (suc (suc (suc zero))))) h = omega arith
value-digit acc (suc (suc (suc (suc (suc (suc zero)))))) h = omega arith
value-digit acc (suc (suc (suc (suc (suc (suc (suc zero))))))) h = omega arith
value-digit acc (suc (suc (suc (suc (suc (suc (suc (suc zero)))))))) h = omega arith
value-digit acc (suc (suc (suc (suc (suc (suc (suc (suc (suc zero))))))))) h = omega arith
value-digit acc (suc (suc (suc (suc (suc (suc (suc (suc (suc (suc d)))))))))) h =
    absurd (omega arith)

value-digits_of : (f n : ℕ) → n < f → value 0 (digits_of f n) ≡ n
unfolding digits_of
value-digits_of zero n h = absurd (omega arith)
value-digits_of (suc f) n h = elim (Bool-cases (ltb n 10)) [
  | inl y ↦
      let small : n < 10 = ground arith in rw (y, digits_of) (value-digit 0 n small ∙ omega arith)
  | inr big ↦
      let large : 10 ≤ n = ground arith in
      rw (big, digits_of)
        (value-append (digits_of f (n / 10)) (digit (n % 10)) 0
          ∙ (ap (λ acc. value acc (digit (n % 10))) (value-digits_of f (n / 10) (omega arith))
              ∙ (value-digit (n / 10) (n % 10) (omega arith) ∙ omega arith)))
]

-- Two numbers with the same digits are the same.
pub decimal-inj : (m n : ℕ) → decimal m ≡ decimal n → m ≡ n
unfolding decimal
decimal-inj m n e =
    sym (value-digits_of (suc m) m (omega arith))
    ∙ ap (value 0) e
    ∙ value-digits_of (suc n) n (omega arith)

Lacks-append : (sep : Char) (s t : String) → Lacks sep s → Lacks sep t → Lacks sep (s ⧺ t)
Lacks-append sep [] t h k = rw nil-append k
Lacks-append sep (c ∷ s) t (n, h) k = rw cons-append (n, Lacks-append sep s t h k)

Lacks-digit : (d : ℕ) → Lacks "." (digit d)
unfolding digit digit_at
Lacks-digit zero = (omega arith, tt)
Lacks-digit (suc zero) = (omega arith, tt)
Lacks-digit (suc (suc zero)) = (omega arith, tt)
Lacks-digit (suc (suc (suc zero))) = (omega arith, tt)
Lacks-digit (suc (suc (suc (suc zero)))) = (omega arith, tt)
Lacks-digit (suc (suc (suc (suc (suc zero))))) = (omega arith, tt)
Lacks-digit (suc (suc (suc (suc (suc (suc zero)))))) = (omega arith, tt)
Lacks-digit (suc (suc (suc (suc (suc (suc (suc zero))))))) = (omega arith, tt)
Lacks-digit (suc (suc (suc (suc (suc (suc (suc (suc zero)))))))) = (omega arith, tt)
Lacks-digit (suc (suc (suc (suc (suc (suc (suc (suc (suc zero))))))))) = (omega arith, tt)
Lacks-digit (suc (suc (suc (suc (suc (suc (suc (suc (suc (suc d)))))))))) = tt

Lacks-digits_of : (f n : ℕ) → Lacks "." (digits_of f n)
unfolding digits_of
Lacks-digits_of zero n = tt
Lacks-digits_of (suc f) n = elim (Bool-cases (ltb n 10)) [
  | inl y ↦ rw (y, digits_of) (Lacks-digit n)
  | inr big ↦
      rw (big, digits_of)
        (Lacks-append "." (digits_of f (n / 10)) (digit (n % 10)) (Lacks-digits_of f (n / 10))
          (Lacks-digit (n % 10)))
]

pub Lacks-decimal : (n : ℕ) → Lacks "." (decimal n)
unfolding decimal
Lacks-decimal n = Lacks-digits_of (suc n) n
