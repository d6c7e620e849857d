-- ===== src/Common/Preserves.antt =====
-- Predicates of a state that a computation keeps, whatever it returns.
use mathlib.Core.Bool.{Bool, true, false}
use balticlsc_platform.Common.Tests.{if◌then◌else◌}
use balticlsc_platform.Common.Effects.{Result, ok, err, panicked, Exec, continue, ◌>>=◌}

module _ {S : Type 0} (P : S → Type 0) where
  abbrev pub Keeps : {A : Type 0} → Exec S A → Type 0
  Keeps m = (before : S) → P before → P (m before).1

  -- After a result: the rest keeps it, and an error or a panic leaves the state alone.
  continue-Keeps :
      {A B : Type 0} (r : Result A) (rest : A → Exec S B) (now : S)
      → ((a : A) → Keeps (rest a))
      → P now
      → P (continue r rest now).1
  continue-Keeps (ok a) rest now each h = each a now h
  continue-Keeps (err e) rest now each h = h
  continue-Keeps (panicked e) rest now each h = h

  pub >>=-Keeps :
      {A B : Type 0} (first : Exec S A) (rest : A → Exec S B)
      → Keeps first
      → ((a : A) → Keeps (rest a))
      → Keeps (first >>= rest)
  >>=-Keeps first rest k each before h =
      continue-Keeps (first before).0 rest (first before).1 each (k before h)

  pub if-Keeps :
      {A : Type 0} (b : Bool) (yes_case no_case : Exec S A)
      → Keeps yes_case
      → Keeps no_case
      → Keeps (if b then yes_case else no_case)
  if-Keeps true y n k l = k
  if-Keeps false y n k l = l
