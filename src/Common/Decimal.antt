-- ===== src/Common/Decimal.antt =====
-- `%d` of a number that is not negative.
use Prim.Native.Nat.{ℕ, zero, suc, ◌+◌, ◌-◌, ◌*◌, ◌/◌, ◌%◌, ◌<◌}
use Prim.Native.Char.{Char, code}
use Prim.Native.String.{String, [], ◌∷◌}
use mathlib.Core.Path.{◌≡◌, refl, ◌∙◌, ap, sym}
use native.Mathlib.Omega.{arith}
use balticlsc_platform.Common.Tests.{ltb, if◌then◌else◌, Bool-cases}
use mathlib.Core.Logic.{inl, inr}

digit : ℕ → Char
digit zero = "0"
digit (suc zero) = "1"
digit (suc (suc zero)) = "2"
digit (suc (suc (suc zero))) = "3"
digit (suc (suc (suc (suc zero)))) = "4"
digit (suc (suc (suc (suc (suc zero))))) = "5"
digit (suc (suc (suc (suc (suc (suc zero)))))) = "6"
digit (suc (suc (suc (suc (suc (suc (suc zero))))))) = "7"
digit (suc (suc (suc (suc (suc (suc (suc (suc zero)))))))) = "8"
digit _ = "9"

code-digit : (d : ℕ) → d < 10 → code (digit d) ≡ 48 + d
unfolding digit
code-digit zero h = refl
code-digit (suc zero) h = refl
code-digit (suc (suc zero)) h = refl
code-digit (suc (suc (suc zero))) h = refl
code-digit (suc (suc (suc (suc zero)))) h = refl
code-digit (suc (suc (suc (suc (suc zero))))) h = refl
code-digit (suc (suc (suc (suc (suc (suc zero)))))) h = refl
code-digit (suc (suc (suc (suc (suc (suc (suc zero))))))) h = refl
code-digit (suc (suc (suc (suc (suc (suc (suc (suc zero)))))))) h = refl
code-digit (suc (suc (suc (suc (suc (suc (suc (suc (suc zero))))))))) h = refl
code-digit (suc (suc (suc (suc (suc (suc (suc (suc (suc (suc n)))))))))) h = absurd (omega arith)

emit : ℕ → ℕ → String → String
emit zero n out = out
emit (suc fuel) n out =
    let rest = emit fuel (n / 10) (digit (n % 10) ∷ out) in
    if ltb n 10 then digit (n % 10) ∷ out else rest

unfoldable pub show_nat : ℕ → String
unfolding emit digit
show_nat n = emit (suc n) n ""

-- The number that digits spell.
value : String → ℕ → ℕ
value [] acc = acc
value (c ∷ s) acc = value s (acc * 10 + (code c - 48))

value-digit :
    (d acc : ℕ) (out : String) → d < 10 → value (digit d ∷ out) acc ≡ value out (acc * 10 + d)
unfolding value
value-digit d acc out h = ap (λ k. value out (acc * 10 + k)) (omega (arith, code-digit d h))

value-emit : (fuel n : ℕ) (out : String) → n < fuel → value (emit fuel n out) 0 ≡ value out n
unfolding emit
value-emit zero n out h = elim h [ ]
value-emit (suc fuel) n out h = elim (Bool-cases (ltb n 10)) [
  | inl small ↦
      rw (small) (value-digit (n % 10) 0 out (omega arith) ∙ ap (value out) (ground arith))
  | inr big ↦ rw big (
      value-emit fuel (n / 10) (digit (n % 10) ∷ out) (ground arith)
      ∙ value-digit (n % 10) (n / 10) out (omega arith)
      ∙ ap (value out) (omega arith))
]

value-show_nat : (n : ℕ) → value (show_nat n) 0 ≡ n
unfolding show_nat value
value-show_nat n = value-emit (suc n) n "" (omega arith)

-- Different numbers are written differently.
pub show_nat-injective : (n m : ℕ) → show_nat n ≡ show_nat m → n ≡ m
show_nat-injective n m e = sym (value-show_nat n) ∙ ap (λ s. value s 0) e ∙ value-show_nat m

show_nat_test : show_nat 2070 ≡ "2070"
unfolding show_nat
show_nat_test = refl
