-- ===== src/Base/Values.antt =====
-- A predicate on every value of a map, and the map that a function of the values makes.
use Prim.Native.String.{String}
use mathlib.Core.Path.{◌≡◌, refl, sym}
use mathlib.Core.Logic.{inl, inr}
use mathlib.Core.Bool.{Bool}
use mathlib.Core.Option.{Option, none, some}
use mathlib.Core.List.{[], ◌∷◌}
use native.Mathlib.Omega.{arith}
use text.Mathlib.Text.{◌==◌}
use k10s.Base.Tests.{Bool-cases}
use k10s.Base.Lists.{length}
use k10s.Base.Maps.{Map, lookup, insert, remove, retain_values, IsMap}

module _ {V : Type 0} where
  abbrev pub map_values : (V → V) → Map V → Map V
  map_values f [] = []
  map_values f ((k, v) ∷ m) = (k, f v) ∷ map_values f m

  abbrev pub mapped : (V → V) → Option V → Option V
  mapped f none = none
  mapped f (some v) = some (f v)

  pub lookup-map_values :
      (f : V → V) (k : String) (m : Map V) → lookup k (map_values f m) ≡ mapped f (lookup k m)
  lookup-map_values f k [] = refl
  lookup-map_values f k ((j, v) ∷ m) = elim (Bool-cases (j == k)) [
    | inl c ↦ rw c refl
    | inr c ↦ rw c (lookup-map_values f k m)
  ]

  pub length-map_values : (f : V → V) (m : Map V) → length (map_values f m) ≡ length m
  length-map_values f [] = refl
  length-map_values f ((j, v) ∷ m) = omega (arith, length-map_values f m)

  pub map_values-IsMap : (f : V → V) (m : Map V) → IsMap m → IsMap (map_values f m)
  map_values-IsMap f [] h = tt
  map_values-IsMap f ((j, v) ∷ m) h =
      (rw (lookup-map_values f j m, h.0) refl, map_values-IsMap f m h.1)

  abbrev pub AllValues : (V → Type 0) → Map V → Type 0
  AllValues P [] = Unit
  AllValues P ((k, v) ∷ m) = P v × AllValues P m

  pub AllValues-lookup :
      (P : V → Type 0) (k : String) (m : Map V) (v : V) → AllValues P m → lookup k m ≡ some v → P v
  AllValues-lookup P k [] v h e = cc
  AllValues-lookup P k ((j, w) ∷ m) v h e = elim (Bool-cases (j == k)) [
    | inl c ↦ let same : w ≡ v = ground arith in rw (sym same) h.0
    | inr c ↦ AllValues-lookup P k m v h.1 (rw c at e)
  ]

  pub AllValues-insert :
      (P : V → Type 0) (k : String) (v : V) (m : Map V)
      → P v
      → AllValues P m
      → AllValues P (insert k v m)
  AllValues-insert P k v [] p h = (p, tt)
  AllValues-insert P k v ((j, w) ∷ m) p h = elim (Bool-cases (j == k)) [
    | inl c ↦ rw c (p, h.1)
    | inr c ↦ rw c (h.0, AllValues-insert P k v m p h.1)
  ]

  pub AllValues-remove :
      (P : V → Type 0) (k : String) (m : Map V) → AllValues P m → AllValues P (remove k m)
  AllValues-remove P k [] h = tt
  AllValues-remove P k ((j, w) ∷ m) h = elim (Bool-cases (j == k)) [
    | inl c ↦ rw c (AllValues-remove P k m h.1)
    | inr c ↦ rw c (h.0, AllValues-remove P k m h.1)
  ]

  pub AllValues-retain_values :
      (P : V → Type 0) (p : V → Bool) (m : Map V) → AllValues P m → AllValues P (retain_values p m)
  AllValues-retain_values P p [] h = tt
  AllValues-retain_values P p ((j, w) ∷ m) h = elim (Bool-cases (p w)) [
    | inl c ↦ rw c (h.0, AllValues-retain_values P p m h.1)
    | inr c ↦ rw c (AllValues-retain_values P p m h.1)
  ]

  pub AllValues-map_values :
      (P : V → Type 0) (f : V → V) (m : Map V)
      → ((v : V) → P v → P (f v))
      → AllValues P m
      → AllValues P (map_values f m)
  AllValues-map_values P f [] g h = tt
  AllValues-map_values P f ((j, w) ∷ m) g h = (g w h.0, AllValues-map_values P f m g h.1)
