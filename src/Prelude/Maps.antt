-- ===== src/Prelude/Maps.antt =====
-- A Go map with string keys, as an association list with one entry for each key.
use mathlib.Core.Path.{◌≡◌}
use mathlib.Core.Option.{Option, none, some}
use mathlib.Core.List.{List, [], ◌∷◌}
use Prim.Native.String.{String}
use native.Mathlib.Omega.{arith}
use text.Mathlib.Text.{◌==◌}
use text.Mathlib.TextEquality.{eq_iff}
use spark_db.Prelude.Tests.{if◌then◌else◌}

abbrev pub Assoc {ℓ} : Type ℓ → Type ℓ
Assoc V = List (String × V)

module _ {ℓ} {V : Type ℓ} where
  -- `v, ok := m[key]`
  unfoldable pub lookup : String → Assoc V → Option V
  lookup key [] = none
  lookup key (entry ∷ m) = if entry.0 == key then some entry.1 else lookup key m

  -- `delete(m, key)`
  unfoldable pub remove : String → Assoc V → Assoc V
  remove key [] = []
  remove key (entry ∷ m) = let rest = remove key m in if entry.0 == key then rest else entry ∷ rest

  -- `m[key] = v`; the order of the entries means nothing
  unfoldable pub insert : String → V → Assoc V → Assoc V
  unfolding remove
  insert key v m = (key, v) ∷ remove key m

  pub lookup-remove :
      (key other : String) (m : Assoc V)
      → lookup other (remove key m) ≡ (if key == other then none else lookup other m)
  unfolding lookup remove
  lookup-remove key other [] = ground arith
  lookup-remove key other (entry ∷ m) =
      ground (
        arith,
        lookup-remove key other m,
        eq_iff key other,
        eq_iff entry.0 key,
        eq_iff entry.0 other,
      )

  pub lookup-insert :
      (key other : String) (v : V) (m : Assoc V)
      → lookup other (insert key v m) ≡ (if key == other then some v else lookup other m)
  unfolding lookup insert
  lookup-insert key other v m = ground (arith, lookup-remove key other m)

pub ruleset assoc_laws = (lookup-insert, lookup-remove)
