-- ===== src/Common/Effects.antt =====
-- Go functions that return a value and an error, or panic, over a state that they change.
use mathlib.Core.Path.{◌≡◌, refl}
use Prim.Native.String.{String, ◌++◌ as ◌<>◌}
use native.Mathlib.Omega.{arith}

-- An `error` is its message.
abbrev pub Error : Type 0
Error = String

pub data Result {ℓ} (A : Type ℓ) : Type ℓ where
  ok : A → Result A
  err : Error → Result A
  panicked : String → Result A

-- The state comes back beside an error and beside a panic: what was written stays written.
abbrev pub Exec : Type 0 → Type 0 → Type 0
Exec S A = S → Result A × S

module _ {S A : Type 0} where
  abbrev pub pure : A → Exec S A
  pure a now = (ok a, now)

  abbrev pub raise : Error → Exec S A
  raise e now = (err e, now)

  abbrev pub panic : String → Exec S A
  panic e now = (panicked e, now)

module _ {S A B : Type 0} where
  abbrev pub continue : Result A → (A → Exec S B) → Exec S B
  continue (ok a) f now = f a now
  continue (err e) f now = (err e, now)
  continue (panicked e) f now = (panicked e, now)

  infixl 5 ◌>>=◌ ◌>>◌
  abbrev pub ◌>>=◌ : Exec S A → (A → Exec S B) → Exec S B
  ◌>>=◌ m f now = let (r, later) = m now in continue r f later

  abbrev pub ◌>>◌ : Exec S A → Exec S B → Exec S B
  m >> n = m >>= λ _. n

-- The same computation over a state of which the old one is a part.
abbrev pub on_part : {S T A : Type 0} → (S → T) → (S → T → S) → Exec T A → Exec S A
on_part get set m s = let (r, t) = m (get s) in (r, set s t)

-- A chain that returned a value: its first part did, and so did the rest.
pub >>=-eq-ok :
    {S A B : Type 0} (m : Exec S A) (f : A → Exec S B) (s : S) (b : B) (t : S)
    → (m >>= f) s ≡ (ok b, t)
    → (a : A) × (u : S) × (m s ≡ (ok a, u)) × (f a u ≡ (ok b, t))
>>=-eq-ok {S} {A} {B} m f s b t h = by_result (m s).0 refl h
  where
    by_result :
        (r : Result A)
        → (m s).0 ≡ r
        → continue (m s).0 f (m s).1 ≡ (ok b, t)
        → (a : A) × (u : S) × (m s ≡ (ok a, u)) × (f a u ≡ (ok b, t))
    by_result (ok a) e k = (a, (m s).1, (λ i. (e i, (m s).1)), rw e at k)
    by_result (err x) e k = cc (e, k)
    by_result (panicked x) e k = cc (e, k)

-- `panic(err.Error())`
abbrev as_panic : {A : Type 0} → Result A → Result A
as_panic (ok a) = ok a
as_panic (err e) = panicked e
as_panic (panicked e) = panicked e

-- `log.Fatalf(prefix, err)`
abbrev as_fatal : {A : Type 0} → String → Result A → Result A
as_fatal prefix (ok a) = ok a
as_fatal prefix (err e) = err (prefix <> e)
as_fatal prefix (panicked e) = panicked e

abbrev pub or_panic : {A W : Type 0} → Exec W A → Exec W A
or_panic m w = let (r, later) = m w in (as_panic r, later)

abbrev pub or_fatal : {A W : Type 0} → String → Exec W A → Exec W A
or_fatal prefix m w = let (r, later) = m w in (as_fatal prefix r, later)

pub or_panic-ok :
    {A W : Type 0} (m : Exec W A) (w t : W) (a : A) → or_panic m w ≡ (ok a, t) → m w ≡ (ok a, t)
or_panic-ok {A} {W} m w t a h = by_result (m w).0 refl
  where
    by_result : (r : Result A) → (m w).0 ≡ r → m w ≡ (ok a, t)
    by_result r e = ground arith

pub or_fatal-ok :
    {A W : Type 0} (prefix : String) (m : Exec W A) (w t : W) (a : A)
    → or_fatal prefix m w ≡ (ok a, t)
    → m w ≡ (ok a, t)
or_fatal-ok {A} {W} prefix m w t a h = by_result (m w).0 refl
  where
    by_result : (r : Result A) → (m w).0 ≡ r → m w ≡ (ok a, t)
    by_result r e = ground arith
