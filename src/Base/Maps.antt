-- ===== src/Base/Maps.antt =====
-- Maps keyed by texts, `HashMap` and `BTreeMap`, as association lists with distinct keys.
use Prim.Native.Nat.{ℕ, suc, ◌+◌, ◌≤◌, ◌<◌}
use Prim.Native.String.{String}
use mathlib.Core.Path.{◌≡◌, refl}
use mathlib.Core.Logic.{inl, inr}
use mathlib.Core.Bool.{Bool, true, false}
use mathlib.Core.Option.{Option, none, some}
use mathlib.Core.List.{List, [], ◌∷◌}
use native.Mathlib.Omega.{arith}
use text.Mathlib.Text.{◌==◌}
use text.Mathlib.TextEquality.{eq_iff}
use k10s.Base.Tests.{if◌then◌else◌, is_some, Bool-cases}
use k10s.Base.Lists.{length, any}

abbrev pub Map : Type 0 → Type 0
Map V = List (String × V)

module _ {V : Type 0} where
  abbrev pub lookup : String → Map V → Option V
  lookup k [] = none
  lookup k ((j, v) ∷ m) = if j == k then some v else lookup k m

  abbrev pub contains_key : String → Map V → Bool
  contains_key k m = is_some (lookup k m)

  abbrev pub insert : String → V → Map V → Map V
  insert k v [] = (k, v) ∷ []
  insert k v ((j, w) ∷ m) = if j == k then (j, v) ∷ m else (j, w) ∷ insert k v m

  abbrev pub remove : String → Map V → Map V
  remove k [] = []
  remove k ((j, v) ∷ m) = let rest = remove k m in if j == k then rest else (j, v) ∷ rest

  -- `retain` by a test of the value.
  abbrev pub retain_values : (V → Bool) → Map V → Map V
  retain_values p [] = []
  retain_values p ((j, v) ∷ m) = let rest = retain_values p m in if p v then (j, v) ∷ rest else rest

  abbrev pub any_value : (V → Bool) → Map V → Bool
  any_value p = any (λ e. p e.1)

  -- The keys are distinct.
  abbrev pub IsMap : Map V → Type 0
  IsMap [] = Unit
  IsMap ((k, v) ∷ m) = (lookup k m ≡ none) × IsMap m

  pub lookup-insert :
      (k j : String) (v : V) (m : Map V)
      → lookup j (insert k v m) ≡ (if k == j then some v else lookup j m)
  lookup-insert k j v [] = refl
  lookup-insert k j v ((i, w) ∷ m) =
      ground (arith, eq_iff k j, eq_iff i k, eq_iff i j, lookup-insert k j v m)

  pub lookup-insert_self : (k : String) (v : V) (m : Map V) → lookup k (insert k v m) ≡ some v
  lookup-insert_self k v m = ground (arith, lookup-insert k k v m, eq_iff k k)

  pub lookup-remove :
      (k j : String) (m : Map V) → lookup j (remove k m) ≡ (if k == j then none else lookup j m)
  lookup-remove k j [] = ground arith
  lookup-remove k j ((i, v) ∷ m) =
      ground (arith, lookup-remove k j m, eq_iff i k, eq_iff i j, eq_iff k j)

  abbrev pub passes : (V → Bool) → Option V → Option V
  passes p none = none
  passes p (some v) = if p v then some v else none

  lookup-retain_none :
      (p : V → Bool) (k : String) (m : Map V)
      → lookup k m ≡ none
      → lookup k (retain_values p m) ≡ none
  lookup-retain_none p k [] h = refl
  lookup-retain_none p k ((i, v) ∷ m) h = ground (arith, lookup-retain_none p k m)

  pub lookup-retain :
      (p : V → Bool) (k : String) (m : Map V)
      → IsMap m
      → lookup k (retain_values p m) ≡ passes p (lookup k m)
  lookup-retain p k [] h = refl
  lookup-retain p k ((i, v) ∷ m) h =
      ground (arith, lookup-retain p k m h.1, eq_iff i k, lookup-retain_none p i m h.0)

  pub insert-IsMap : (k : String) (v : V) (m : Map V) → IsMap m → IsMap (insert k v m)
  insert-IsMap k v [] h = (refl, tt)
  insert-IsMap k v ((i, w) ∷ m) h = elim (Bool-cases (i == k)) [
    | inl c ↦ rw c h
    | inr c ↦
        rw c (ground (arith, lookup-insert k i v m, eq_iff k i, eq_iff i k), insert-IsMap k v m h.1)
  ]

  pub remove-IsMap : (k : String) (m : Map V) → IsMap m → IsMap (remove k m)
  remove-IsMap k [] h = tt
  remove-IsMap k ((i, v) ∷ m) h = elim (Bool-cases (i == k)) [
    | inl c ↦ rw c (remove-IsMap k m h.1)
    | inr c ↦ rw c (ground (arith, lookup-remove k i m), remove-IsMap k m h.1)
  ]

  pub retain_values-IsMap : (p : V → Bool) (m : Map V) → IsMap m → IsMap (retain_values p m)
  retain_values-IsMap p [] h = tt
  retain_values-IsMap p ((i, v) ∷ m) h = elim (Bool-cases (p v)) [
    | inl c ↦ rw c (lookup-retain_none p i m h.0, retain_values-IsMap p m h.1)
    | inr c ↦ rw c (retain_values-IsMap p m h.1)
  ]

  pub length-insert-le : (k : String) (v : V) (m : Map V) → length (insert k v m) ≤ length m + 1
  length-insert-le k v [] = omega arith
  length-insert-le k v ((i, w) ∷ m) = ground (arith, length-insert-le k v m)

  pub length-remove-le : (k : String) (m : Map V) → length (remove k m) ≤ length m
  length-remove-le k [] = omega arith
  length-remove-le k ((i, v) ∷ m) = ground (arith, length-remove-le k m)

  pub length-remove-lt :
      (k : String) (m : Map V) → contains_key k m ≡ true → length (remove k m) < length m
  length-remove-lt k [] h = cc
  length-remove-lt k ((i, v) ∷ m) h = ground (arith, length-remove-lt k m, length-remove-le k m)

  pub length-retain_values-le : (p : V → Bool) (m : Map V) → length (retain_values p m) ≤ length m
  length-retain_values-le p [] = omega arith
  length-retain_values-le p ((i, v) ∷ m) = ground (arith, length-retain_values-le p m)

module _ {V : Type 0} (p : V → Bool) where
  -- How many values pass the test.
  abbrev pub count_values : Map V → ℕ
  count_values [] = 0
  count_values ((k, v) ∷ m) = if p v then suc (count_values m) else count_values m

  pub count_values-retain-le :
      (q : V → Bool) (m : Map V) → count_values (retain_values q m) ≤ count_values m
  count_values-retain-le q [] = omega arith
  count_values-retain-le q ((k, v) ∷ m) = ground (arith, count_values-retain-le q m)

  pub count_values-remove-le : (k : String) (m : Map V) → count_values (remove k m) ≤ count_values m
  count_values-remove-le k [] = omega arith
  count_values-remove-le k ((j, v) ∷ m) = ground (arith, count_values-remove-le k m)

  pub count_values-insert-le :
      (k : String) (v : V) (m : Map V)
      → count_values (insert k v m) ≤ count_values m + (if p v then 1 else 0)
  count_values-insert-le k v [] = ground arith
  count_values-insert-le k v ((j, w) ∷ m) = ground (arith, count_values-insert-le k v m)

  -- A value that passes only where the one before it did adds nothing.
  pub count_values-overwrite-le :
      (k : String) (v w : V) (m : Map V)
      → lookup k m ≡ some w
      → (p v ≡ true → p w ≡ true)
      → count_values (insert k v m) ≤ count_values m
  count_values-overwrite-le k v w [] h g = cc
  count_values-overwrite-le k v w ((j, u) ∷ m) h g =
      ground (arith, count_values-overwrite-le k v w m, g)

  pub count_values_of_any : (m : Map V) → any_value p m ≡ false → count_values m ≡ 0
  count_values_of_any [] h = refl
  count_values_of_any ((k, v) ∷ m) h = ground (arith, count_values_of_any m)

module _ {V : Type 0} where
  pub length-overwrite :
      (k : String) (v : V) (m : Map V) → contains_key k m ≡ true → length (insert k v m) ≡ length m
  length-overwrite k v [] h = cc
  length-overwrite k v ((j, u) ∷ m) h = ground (arith, length-overwrite k v m)
