-- ===== src/Client/Orders.antt =====
-- A map and the order of its keys, as in the retained operations and keys of
-- crates/k10s-ui/src/client/state.rs.
use k10s.Base.{
  ℕ, ◌+◌, ◌≤◌, ◌<◌, ◌≡◌, ◌∙◌, refl, sym, subst, inl, inr, String, Bool, true, false, not, ◌||◌,
  ◌&&◌, none, some, List, [], ◌∷◌, ◌++◌, arith, any, retain, find, length, if◌then◌else◌, if_cases,
  Bool-cases, string_eq,
}
use text.Mathlib.TextEquality.{eq_iff}
use k10s.Base.Maps.{
  Map, contains_key, insert, remove, lookup-insert, lookup-remove, length-insert-le,
}

abbrev pub member : String → List String → Bool
member id order = any (λ j. string_eq.beq j id) order

pub member-append :
    (id j : String) (order : List String)
    → member id (order ++ j ∷ []) ≡ (member id order || string_eq.beq j id)
member-append id j [] = ground arith
member-append id j (k ∷ order) = ground (arith, member-append id j order)

pub member-retain :
    (id j : String) (order : List String)
    → member id (retain (λ k. not (string_eq.beq k j)) order)
      ≡ (member id order && not (string_eq.beq j id))
member-retain id j [] = refl
member-retain id j (k ∷ order) =
    ground (arith, member-retain id j order, eq_iff k j, eq_iff k id, eq_iff j id)

-- What is found is a member.
pub member-find :
    (p : String → Bool) (id : String) (order : List String)
    → find p order ≡ some id
    → (member id order ≡ true) × (p id ≡ true)
member-find p id [] h = cc
member-find p id (k ∷ order) h = elim (Bool-cases (p k)) [
  | inl c ↦
      let same : k ≡ id = ground arith in
      (ground (arith, eq_iff k id), subst (λ j. p j ≡ true) same c)
  | inr c ↦ let rest = member-find p id order (rw c at h) in (ground (arith, rest.0), rest.1)
]

pub member-find-none :
    (p : String → Bool) (id : String) (order : List String)
    → find p order ≡ none
    → member id order ≡ true
    → p id ≡ false
member-find-none p id [] h m = cc
member-find-none p id (k ∷ order) h m = elim (Bool-cases (p k)) [
  | inl c ↦ absurd (ground arith)
  | inr c ↦ elim (Bool-cases (string_eq.beq k id)) [
    | inl same ↦ subst (λ j. p j ≡ false) ((eq_iff k id).0 same) c
    | inr other ↦ member-find-none p id order (rw c at h) (rw other at m)
  ]
]

or_swap : (a b : Bool) → (b || a) ≡ (a || b)
or_swap true true = refl
or_swap true false = refl
or_swap false true = refl
or_swap false false = refl

module _ {V : Type 0} where
  pub contains-insert :
      (k j : String) (v : V) (m : Map V)
      → contains_key j (insert k v m) ≡ (string_eq.beq k j || contains_key j m)
  contains-insert k j v m = ground (arith, lookup-insert k j v m)

  pub contains-remove :
      (k j : String) (m : Map V)
      → contains_key j (remove k m) ≡ (contains_key j m && not (string_eq.beq k j))
  contains-remove k j m = ground (arith, lookup-remove k j m)

  -- The order names the keys of the map.
  abbrev pub Orders : Map V → List String → Type 0
  Orders m order = (id : String) → contains_key id m ≡ member id order

  known_key :
      (k j : String) (m : Map V) (order : List String)
      → contains_key j m ≡ member j order
      → contains_key k m ≡ true
      → (string_eq.beq k j || contains_key j m) ≡ member j order
  known_key k j m order h c = elim (Bool-cases (string_eq.beq k j)) [
    | inl e ↦ rw e (sym (subst (λ i. contains_key i m ≡ true) ((eq_iff k j).0 e) c) ∙ h)
    | inr e ↦ rw e h
  ]

  pub insert-Orders :
      (k : String) (v : V) (m : Map V) (order : List String)
      → Orders m order
      → Orders (insert k v m) (if contains_key k m then order else order ++ k ∷ [])
  insert-Orders k v m order h j =
      if_cases (λ (o : List String). contains_key j (insert k v m) ≡ member j o) (contains_key k m)
        (λ c. contains-insert k j v m ∙ known_key k j m order (h j) c)
        (λ _.
          contains-insert k j v m
          ∙ rw (member-append j k order)
              (let e = h j in rw e (or_swap (member j order) (string_eq.beq k j))))

  pub remove-Orders :
      (k : String) (m : Map V) (order : List String)
      → Orders m order
      → Orders (remove k m) (retain (λ id. not (string_eq.beq id k)) order)
  remove-Orders k m order h j =
      rw (contains-remove k j m, member-retain j k order) (let e = h j in rw e refl)

  pub ordered_some :
      (m : Map V) (order : List String) → Orders m order → 0 < length m → 0 < length order
  ordered_some [] order h l = absurd (omega arith)
  ordered_some ((k, v) ∷ m) [] h l = absurd (ground (arith, h k, eq_iff k k))
  ordered_some ((k, v) ∷ m) (id ∷ order) h l = omega arith

  pub length-insert-absent-le :
      (k : String) (v : V) (m : Map V) (n : ℕ) → length m ≤ n → length (insert k v m) ≤ n + 1
  length-insert-absent-le k v m n l = omega (arith, length-insert-le k v m)
