-- ===== src/Common/Lists.antt =====
-- Slices: lengths and positions over the native numbers, and loops over a slice.
use Prim.Native.Nat.{ℕ, suc, ◌+◌}
use mathlib.Core.Path.{◌≡◌}
use mathlib.Core.Bool.{Bool, true, false, ◌&&◌, ◌||◌}
use mathlib.Core.Logic.{◌⊎◌, inl, inr}
use mathlib.Core.List.{List, [], ◌∷◌, ◌++◌}
use native.Mathlib.Omega.{arith}
use balticlsc_platform.Common.Effects.{Exec, pure, ◌>>◌}
use balticlsc_platform.Common.Tests.{if◌then◌else◌}

module _ {ℓ} {A : Type ℓ} where
  abbrev pub length : List A → ℕ
  length [] = 0
  length (x ∷ xs) = suc (length xs)

  pub length-append : (xs ys : List A) → length (xs ++ ys) ≡ length xs + length ys
  length-append [] ys = omega arith
  length-append (x ∷ xs) ys = omega (arith, length-append xs ys)

  -- `select p l` keeps the items that pass the test.
  abbrev pub select : (A → Bool) → List A → List A
  select p [] = []
  select p (x ∷ xs) = let rest = select p xs in if p x then x ∷ rest else rest

  abbrev pub any : (A → Bool) → List A → Bool
  any p [] = false
  any p (x ∷ xs) = p x || any p xs

  abbrev pub all : (A → Bool) → List A → Bool
  all p [] = true
  all p (x ∷ xs) = p x && all p xs

module _ {ℓ κ} {A : Type ℓ} (P : A → Type κ) where
  abbrev pub All : List A → Type κ
  All [] = Unit
  All (x ∷ xs) = P x × All xs

-- `for _, x := range xs { … }` over a body that may return an error.
module _ {S A : Type 0} where
  unfoldable pub for_each : List A → (A → Exec S (Unit {0})) → Exec S (Unit {0})
  for_each [] f = pure tt
  for_each (x ∷ xs) f = f x >> for_each xs f

-- Membership with its position.
module _ {A : Type 0} where
  abbrev pub Among : A → List A → Type 0
  Among x [] = ⊥
  Among x (y ∷ ys) = (x ≡ y) ⊎ Among x ys

  pub Among-append : (x : A) (xs ys : List A) → Among x (xs ++ ys) → Among x xs ⊎ Among x ys
  Among-append x [] ys h = inr h
  Among-append x (y ∷ xs) ys (inl e) = inl (inl e)
  Among-append x (y ∷ xs) ys (inr h) = elim (Among-append x xs ys h) [
    | inl m ↦ inl (inr m)
    | inr m ↦ inr m
  ]

  pub Among-append_left : (x : A) (xs ys : List A) → Among x xs → Among x (xs ++ ys)
  Among-append_left x (y ∷ xs) ys (inl e) = inl e
  Among-append_left x (y ∷ xs) ys (inr h) = inr (Among-append_left x xs ys h)
  Among-append_left x [] ys h = elim h [ ]

  pub Among-append_right : (x : A) (xs ys : List A) → Among x ys → Among x (xs ++ ys)
  Among-append_right x [] ys h = h
  Among-append_right x (y ∷ xs) ys h = inr (Among-append_right x xs ys h)
