-- ===== src/Rancher/Bytes.antt =====
-- Go strings as bytes, where upstream/rancher-go/client/parsers.go cuts and splits them.
use Prim.Native.Char.{code}
use mathlib.Core.Option.{some-injective}
use balticlsc_platform.Common.{
  String, ℕ, zero, suc, ◌+◌, ◌/◌, ◌%◌, ◌<◌, ltb, Bool, true, false, ◌&&◌, List, [], ◌∷◌, ◌++◌,
  length, Option, none, some, if◌then◌else◌, ◌≡◌, ◌↔◌, refl, arith, ap, All, Bool-cases, inl, inr,
}
use Prim.Native.Nat.{compare, Ordering}

abbrev pub Bytes : Type 0
Bytes = List ℕ

-- The UTF-8 encoding of a code point.
abbrev encoded : ℕ → Bytes
encoded c =
    if ltb c 128
    then c ∷ []
    else if ltb c 2048
    then (192 + c / 64) ∷ (128 + c % 64) ∷ []
    else if ltb c 65536
    then (224 + c / 4096) ∷ (128 + c / 64 % 64) ∷ (128 + c % 64) ∷ []
    else (240 + c / 262144) ∷ (128 + c / 4096 % 64) ∷ (128 + c / 64 % 64) ∷ (128 + c % 64) ∷ []

-- The bytes of a text.
abbrev pub bytes_of : String → Bytes
bytes_of String.[] = []
bytes_of (String.◌∷◌ c s) = encoded (code c) ++ bytes_of s

abbrev pub is_byte : ℕ → ℕ → Bool
is_byte a b = elim (compare a b) [ Ordering.eq ↦ true | _ ↦ false ]

abbrev pub same_bytes : Bytes → Bytes → Bool
same_bytes [] [] = true
same_bytes (a ∷ s) (b ∷ t) = is_byte a b && same_bytes s t
same_bytes _ _ = false

-- `strings.HasPrefix`
abbrev pub has_prefix : Bytes → Bytes → Bool
has_prefix s [] = true
has_prefix [] (p ∷ ps) = false
has_prefix (c ∷ s) (p ∷ ps) = is_byte c p && has_prefix s ps

-- `s[n:]`; a cut behind the end is a panic.
abbrev pub cut : ℕ → Bytes → Option Bytes
cut zero s = some s
cut (suc n) [] = none
cut (suc n) (c ∷ s) = cut n s

abbrev add_byte : ℕ → List Bytes → List Bytes
add_byte c [] = (c ∷ []) ∷ []
add_byte c (part ∷ parts) = (c ∷ part) ∷ parts

-- `strings.Split` at a separator of one byte.
unfoldable pub split : ℕ → Bytes → List Bytes
split sep [] = [] ∷ []
split sep (c ∷ s) = let rest = split sep s in if is_byte c sep then [] ∷ rest else add_byte c rest

-- A byte that is none of these texts.
abbrev pub Lacks : ℕ → Bytes → Type 0
Lacks sep = All (λ c. is_byte c sep ≡ false)

-- Nothing, or something that starts with the separator.
abbrev pub Ends : ℕ → Bytes → Type 0
Ends sep [] = Unit
Ends sep (c ∷ s) = is_byte c sep ≡ true

pub same_bytes_refl : (s : Bytes) → same_bytes s s ≡ true
same_bytes_refl [] = refl
same_bytes_refl (c ∷ s) = ground (arith, same_bytes_refl s)

pub has_prefix-append : (s t : Bytes) → has_prefix (s ++ t) s ≡ true
has_prefix-append [] t = refl
has_prefix-append (c ∷ s) t = ground (arith, has_prefix-append s t)

pub cut-append : (s t : Bytes) → cut (length s) (s ++ t) ≡ some t
cut-append [] t = refl
cut-append (c ∷ s) t = cut-append s t

-- A cut fails exactly behind the end.
pub cut-none : (n : ℕ) (s : Bytes) → (cut n s ≡ none) ↔ (length s < n)
cut-none zero s = (λ h. cc h, λ h. absurd (omega arith))
cut-none (suc n) [] = (λ h. omega arith, λ h. refl)
cut-none (suc n) (c ∷ s) =
    let (there, back) = cut-none n s in (λ h. omega (arith, there h), λ h. back (omega arith))

pub has_prefix-shape : (s t : Bytes) → has_prefix s t ≡ true → (rest : Bytes) × (s ≡ t ++ rest)
has_prefix-shape s [] h = (s, refl)
has_prefix-shape [] (p ∷ ps) h = cc
has_prefix-shape (c ∷ s) (p ∷ ps) h =
    let (rest, e) = has_prefix-shape s ps (ground arith) in (rest, ground arith)

pub cut-shape :
    (n : ℕ) (s t : Bytes) → cut n s ≡ some t → (gap : Bytes) × (length gap ≡ n) × (s ≡ gap ++ t)
cut-shape zero s t h = ([], refl, some-injective s t h)
cut-shape (suc n) [] t h = cc
cut-shape (suc n) (c ∷ s) t h =
    let (gap, long, e) = cut-shape n s t h in (c ∷ gap, omega (arith, long), ap (λ l. c ∷ l) e)

pub same_bytes-eq : (s t : Bytes) → same_bytes s t ≡ true → s ≡ t
same_bytes-eq [] [] h = refl
same_bytes-eq [] (b ∷ t) h = cc
same_bytes-eq (a ∷ s) [] h = cc
same_bytes-eq (a ∷ s) (b ∷ t) h = ground (arith, same_bytes-eq s t)

-- The parts behind the first one.
abbrev pub later_parts : ℕ → Bytes → List Bytes
later_parts sep [] = []
later_parts sep (c ∷ rest) = split sep rest

-- The first part goes up to the first separator.
pub split-append :
    (sep : ℕ) (s rest : Bytes)
    → Lacks sep s
    → Ends sep rest
    → split sep (s ++ rest) ≡ s ∷ later_parts sep rest
unfolding split
split-append sep [] [] l e = refl
split-append sep [] (c ∷ rest) l e = rw e refl
split-append sep (c ∷ s) rest l e = let same = split-append sep s rest l.1 e in rw (l.0, same) refl

-- Every text is such a part with what follows.
pub divided :
    (sep : ℕ) (s : Bytes)
    → (first : Bytes) × (rest : Bytes) × (s ≡ first ++ rest) × Lacks sep first × Ends sep rest
divided sep [] = ([], [], refl, tt, tt)
divided sep (c ∷ s) = elim (Bool-cases (is_byte c sep)) [
  | inl here ↦ ([], c ∷ s, refl, tt, here)
  | inr other ↦
      let (first, rest, e, lacks, ends) = divided sep s in
      (c ∷ first, rest, ap (λ l. c ∷ l) e, (other, lacks), ends)
]

pub Lacks-append : (sep : ℕ) (s t : Bytes) → Lacks sep (s ++ t) ↔ (Lacks sep s × Lacks sep t)
Lacks-append sep [] t = (λ h. (tt, h), λ h. h.1)
Lacks-append sep (c ∷ s) t =
    let (there, back) = Lacks-append sep s t in
    (λ h. ((h.0, (there h.1).0), (there h.1).1), λ h. (h.0.0, back (h.0.1, h.1)))
