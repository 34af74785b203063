-- ===== src/Base/Maps.antt =====
-- A JavaScript `Map` and a Redis keyspace with text keys, as association lists.
use Prim.Native.String.{String}
use mathlib.Core.Path.{◌≡◌, refl}
use mathlib.Core.Option.{Option, none, some}
use mathlib.Core.List.{List, [], ◌∷◌}
use native.Mathlib.Omega.{arith}
use text.Mathlib.TextEquality.{eq_iff}
use text.Mathlib.TextPositions.{eq_refl}
use blocktic_backend.Base.Tests.{◌==◌, string_eq, if◌then◌else◌}

module _ {V : Type 0} where
  -- `map.get(k)`
  abbrev pub lookup : (key : String) → List (String × V) → Option V
  lookup key [] = none
  lookup key (p ∷ entries) = if p.0 == key then some p.1 else lookup key entries

  -- `map.set(k, v)`: a key that is present keeps its place.
  abbrev pub insert : (key : String) (value : V) → List (String × V) → List (String × V)
  insert key value [] = (key, value) ∷ []
  insert key value (p ∷ entries) =
      if p.0 == key then (p.0, value) ∷ entries else p ∷ insert key value entries

  -- `map.delete(k)`
  abbrev pub without : (key : String) → List (String × V) → List (String × V)
  without key [] = []
  without key (p ∷ entries) = if p.0 == key then without key entries else p ∷ without key entries

  pub lookup-insert :
      (key other : String) (value : V) (entries : List (String × V))
      → lookup other (insert key value entries)
        ≡ (if key == other then some value else lookup other entries)
  lookup-insert key other value [] = refl
  lookup-insert key other value (p ∷ entries) =
      let later = lookup-insert key other value entries in
      ground (arith, eq_iff p.0 key, eq_iff p.0 other, eq_iff key other, later)

  pub lookup-without :
      (key other : String) (entries : List (String × V))
      → lookup other (without key entries) ≡ (if key == other then none else lookup other entries)
  lookup-without key other [] = ground arith
  lookup-without key other (p ∷ entries) =
      let later = lookup-without key other entries in
      ground (arith, eq_iff p.0 key, eq_iff p.0 other, eq_iff key other, later)

  pub lookup-insert_self :
      (key : String) (value : V) (entries : List (String × V))
      → lookup key (insert key value entries) ≡ some value
  lookup-insert_self key value entries = rw (lookup-insert key key value entries, eq_refl key) refl
