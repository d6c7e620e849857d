-- ===== src/Common/Total.antt =====
-- Computations that return a value from every state.
use mathlib.Core.Path.{◌≡◌, refl}
use balticlsc_platform.Common.Effects.{ok, Exec, ◌>>=◌, or_panic, or_fatal}
use Prim.Native.String.{String}

abbrev pub Succeeds : {S A : Type 0} → Exec S A → Type 0
Succeeds {S} {A} m = (before : S) → (a : A) × (later : S) × (m before ≡ (ok a, later))

pub >>=-Succeeds :
    {S A B : Type 0} (m : Exec S A) (f : A → Exec S B)
    → Succeeds m
    → ((a : A) → Succeeds (f a))
    → Succeeds (m >>= f)
>>=-Succeeds m f first rest before =
    let (a, later, done) = first before in
    let (b, last, ended) = rest a later in (b, last, rw done ended)

pub or_panic-Succeeds : {S A : Type 0} (m : Exec S A) → Succeeds m → Succeeds (or_panic m)
or_panic-Succeeds m total before = let (a, later, done) = total before in (a, later, rw done refl)

pub or_fatal-Succeeds :
    {S A : Type 0} (prefix : String) (m : Exec S A) → Succeeds m → Succeeds (or_fatal prefix m)
or_fatal-Succeeds prefix m total before =
    let (a, later, done) = total before in (a, later, rw done refl)

-- It ends with this result from every state.
abbrev pub Yields : {S A : Type 0} → Exec S A → A → Type 0
Yields {S} m a = (before : S) → (later : S) × (m before ≡ (ok a, later))

pub >>=-Yields :
    {S A B : Type 0} (m : Exec S A) (f : A → Exec S B) (a : A)
    → Yields m a
    → Succeeds (f a)
    → Succeeds (m >>= f)
>>=-Yields m f a first rest before =
    let (later, done) = first before in
    let (b, last, ended) = rest later in (b, last, rw done ended)

pub or_panic-Yields : {S A : Type 0} (m : Exec S A) (a : A) → Yields m a → Yields (or_panic m) a
or_panic-Yields m a total before = let (later, done) = total before in (later, rw done refl)
