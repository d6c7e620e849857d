-- ===== src/Common/Dict.antt =====
-- Go's `map[string]V` as a list of entries with distinct keys.
-- A `range` over a map visits `keys`, in an order that the run time chooses.
use mathlib.Core.Path.{◌≡◌, refl}
use mathlib.Core.Bool.{false}
use mathlib.Core.Option.{Option, none, some}
use mathlib.Core.List.{List, [], ◌∷◌, foldl}
use Prim.Native.String.{String}
use native.Mathlib.Omega.{arith}
use text.Mathlib.Text.{◌==◌}
use text.Mathlib.TextEquality.{eq_iff}
use balticlsc_platform.Common.Tests.{if◌then◌else◌}
use balticlsc_platform.Common.Lists.{any}

abbrev pub Dict {ℓ} : Type ℓ → Type ℓ
Dict V = List (String × V)

module _ {ℓ} {V : Type ℓ} where
  abbrev pub empty : Dict V
  empty = []

  -- `v, ok := m[k]`
  unfoldable pub lookup : String → Dict V → Option V
  lookup key [] = none
  lookup key ((name, held) ∷ more) = if name == key then some held else lookup key more

  -- `m[k] = v`
  unfoldable pub insert : String → V → Dict V → Dict V
  insert key new [] = (key, new) ∷ []
  insert key new ((name, held) ∷ more) =
      let rest = insert key new more in
      if name == key then (key, new) ∷ more else (name, held) ∷ rest

  -- `delete(m, k)`
  unfoldable pub delete : String → Dict V → Dict V
  delete k [] = []
  delete k ((j, v) ∷ m) = let rest = delete k m in if j == k then rest else (j, v) ∷ rest

  unfoldable pub keys : Dict V → List String
  keys [] = []
  keys ((k, _) ∷ m) = k ∷ keys m

  pub lookup-insert :
      (key other : String) (new : V) (entries : Dict V)
      → lookup other (insert key new entries)
        ≡ (if key == other then some new else lookup other entries)
  unfolding lookup insert
  lookup-insert key other new [] = refl
  lookup-insert key other new ((name, held) ∷ more) =
      let ih = lookup-insert key other new more in
      ground (arith, ih, eq_iff name key, eq_iff name other, eq_iff key other)

  pub lookup-delete :
      (k j : String) (m : Dict V) → lookup j (delete k m) ≡ (if k == j then none else lookup j m)
  unfolding lookup delete
  lookup-delete k j [] = ground arith
  lookup-delete k j ((i, v) ∷ m) =
      ground (arith, lookup-delete k j m, eq_iff i k, eq_iff i j, eq_iff k j)

  pub lookup-singleton :
      (k name : String) (v held : V) → lookup k ((name, held) ∷ []) ≡ some v → v ≡ held
  unfolding lookup
  lookup-singleton k name v held h = ground arith

  pub lookup-nil : (k : String) → lookup k empty ≡ none
  unfolding lookup
  lookup-nil k = refl

module _ {ℓ} {V : Type ℓ} where
  pub lookup-keys :
      (m : Dict V) (k : String) → any (λ j. j == k) (keys m) ≡ false → lookup k m ≡ none
  unfolding keys lookup
  lookup-keys [] k h = refl
  lookup-keys ((j, v) ∷ m) k h = ground (arith, lookup-keys m k)

  -- One round of `for k, v := range m { d[k] = v }`.
  put_back : Dict V → Dict V → String → Dict V
  put_back m d k = elim (lookup k m) [ none ↦ d | some v ↦ insert k v d ]

  -- The order of the rounds does not matter for what the copy holds.
  unfoldable pub copy : Dict V → Dict V
  unfolding put_back
  copy m = foldl (put_back m) empty (keys m)

  abbrev overlay : Option V → Option V → Option V
  overlay none o = o
  overlay (some v) o = some v

  lookup-put_back :
      (m d : Dict V) (j k : String)
      → lookup k (put_back m d j)
        ≡ (if j == k then overlay (lookup k m) (lookup k d) else lookup k d)
  unfolding put_back
  lookup-put_back m d j k = by_value (lookup j m) refl
    where
      by_value :
          (o : Option V)
          → lookup j m ≡ o
          → lookup k (put_back m d j)
            ≡ (if j == k then overlay (lookup k m) (lookup k d) else lookup k d)
      by_value none e = ground (arith, eq_iff j k)
      by_value (some v) e = ground (arith, eq_iff j k, lookup-insert j k v d)

  lookup-foldl-put_back :
      (m : Dict V) (ks : List String) (d : Dict V) (k : String)
      → lookup k (foldl (put_back m) d ks)
        ≡ (if any (λ j. j == k) ks then overlay (lookup k m) (lookup k d) else lookup k d)
  lookup-foldl-put_back m [] d k = refl
  lookup-foldl-put_back m (j ∷ ks) d k =
      ground (arith, lookup-foldl-put_back m ks (put_back m d j) k, lookup-put_back m d j k)

  pub lookup-copy : (m : Dict V) (k : String) → lookup k (copy m) ≡ lookup k m
  unfolding copy
  lookup-copy m k =
      ground
        (arith, lookup-foldl-put_back m (keys m) empty k, lookup-keys m k, lookup-nil {V = V} k)

pub ruleset dict_laws = (lookup-nil, lookup-insert, lookup-delete, lookup-copy)
