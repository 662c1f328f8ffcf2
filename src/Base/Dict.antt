-- ===== src/Base/Dict.antt =====
-- Go's `map[string]V` as an association list. The first entry of a key counts; `range` over a map
-- meets the entries in the list's order, which is arbitrary, as it is in Go.
use Prim.Native.String.{String}
use mathlib.Core.Path.{◌≡◌, refl}
use mathlib.Core.Option.{Option, none, some}
use mathlib.Core.List.{List, [], ◌∷◌}
use native.Mathlib.Omega.{arith}
use text.Mathlib.Text.{◌==◌}
use text.Mathlib.TextEquality.{eq_iff}
use package.play_bin.Base.Tests.{if◌then◌else◌}

abbrev pub Dict {ℓ} : Type ℓ → Type ℓ
Dict V = List (String × V)

module _ {ℓ} {V : Type ℓ} where
  unfoldable pub lookup : String → Dict V → Option V
  lookup key [] = none
  lookup key ((other, value) ∷ dict) = if other == key then some value else lookup key dict

  -- `m[k] = v`
  unfoldable pub insert : String → V → Dict V → Dict V
  insert key value [] = (key, value) ∷ []
  insert key value ((other, held) ∷ dict) =
      if other == key then (key, value) ∷ dict else (other, held) ∷ insert key value dict

  -- `delete(m, k)`
  unfoldable pub erase : String → Dict V → Dict V
  erase key [] = []
  erase key ((other, held) ∷ dict) =
      let rest = erase key dict in if other == key then rest else (other, held) ∷ rest

  pub lookup-insert :
      (key other : String) (value : V) (dict : Dict V)
      → lookup other (insert key value dict)
        ≡ (if key == other then some value else lookup other dict)
  unfolding lookup insert
  lookup-insert key other value [] = refl
  lookup-insert key other value ((first, held) ∷ dict) = ground (
    arith,
    eq_iff key other,
    eq_iff first key,
    eq_iff first other,
    lookup-insert key other value dict,
  )

  pub lookup-erase :
      (key other : String) (dict : Dict V)
      → lookup other (erase key dict) ≡ (if key == other then none else lookup other dict)
  unfolding lookup erase
  lookup-erase key other [] = ground arith
  lookup-erase key other ((first, held) ∷ dict) =
      ground
        (arith, eq_iff key other, eq_iff first key, eq_iff first other, lookup-erase key other dict)

  -- `v, ok := m[k]` without the `ok`: the zero value, the second argument, for a missing key.
  abbrev pub get_or : String → V → Dict V → V
  get_or key zero_value dict = elim (lookup key dict) [ none ↦ zero_value | some value ↦ value ]
