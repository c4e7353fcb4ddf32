-- ===== src/Base/Maps.antt =====
-- Maps as association lists with text keys: at most the first entry of a key is read.
use mathlib.Core.Path.{◌≡◌, refl}
use mathlib.Core.Option.{Option, none, some}
use mathlib.Core.List.{List, [], ◌∷◌}
use native.Mathlib.Omega.{arith}
use get_mcp.Base.Tests.{if◌then◌else◌}
use get_mcp.Base.Strings.{Text, ◌==◌, eq_iff}

module _ {ℓ} {V : Type ℓ} where
  -- `map.get(key)`
  unfoldable pub lookup : Text → List (Text × V) → Option V
  lookup key [] = none
  lookup key ((other, value) ∷ entries) = if other == key then some value else lookup key entries

  -- `map.set(key, value)`
  unfoldable pub insert : Text → V → List (Text × V) → List (Text × V)
  insert key value [] = (key, value) ∷ []
  insert key value ((other, old) ∷ entries) =
      if other == key then (key, value) ∷ entries else (other, old) ∷ insert key value entries

  -- `map.delete(key)`
  unfoldable pub remove : Text → List (Text × V) → List (Text × V)
  remove key [] = []
  remove key ((other, old) ∷ entries) =
      let rest = remove key entries in if other == key then rest else (other, old) ∷ rest

module _ {ℓ} {V : Type ℓ} where
  pub lookup-insert :
      (key other : Text) (value : V) (entries : List (Text × V))
      → lookup other (insert key value entries)
        ≡ (if key == other then some value else lookup other entries)
  unfolding lookup insert
  lookup-insert key other value [] = refl
  lookup-insert key other value ((first, old) ∷ entries) = ground (
    arith,
    eq_iff key other,
    eq_iff first key,
    eq_iff first other,
    lookup-insert key other value entries,
  )

  pub lookup-remove :
      (key other : Text) (entries : List (Text × V))
      → lookup other (remove key entries) ≡ (if key == other then none else lookup other entries)
  unfolding lookup remove
  lookup-remove key other [] = ground arith
  lookup-remove key other ((first, old) ∷ entries) = ground (
    arith,
    eq_iff key other,
    eq_iff first key,
    eq_iff first other,
    lookup-remove key other entries,
  )
