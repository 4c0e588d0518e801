-- ===== src/Client/Retention.antt =====
-- The bound on the operations that a client retains: crates/k10s-ui/src/client/state.rs.
use k10s.Base.{
  ℕ, zero, suc, ◌+◌, ◌≤◌, ◌<◌, ◌≡◌, ◌⊎◌, ◌∙◌, refl, ap, inl, inr, String, true, false, not, Option,
  some, List, [], ◌∷◌, ◌++◌, arith, retain, find, length, ltb, if◌then◌else◌, Bool-cases,
  Option-cases, string_eq,
}
use text.Mathlib.TextEquality.{eq_iff}
use k10s.Base.Maps.{Map, contains_key, insert, remove, length-remove-lt}
use k10s.Client.Operations.{
  OperationStatus, OperationView, Mutations, operation_retention, holds_terminal, victim,
  evict_operations, with_operations, record_view,
}
use k10s.Client.Orders.{
  member, member-find, member-find-none, Orders, insert-Orders, remove-Orders, ordered_some,
  length-insert-absent-le,
}

module _ {G : Type 0} where
  -- What a call that bounds the operations does to them: nothing, or one entry goes, a terminal one or,
  -- where no operation is terminal, any.
  pub data Bounds (before : Map (OperationView G)) (after : Map (OperationView G)) : Type 0 where
    whole : after ≡ before → Bounds before after
    drops :
        (id : String)
        → after ≡ remove id before
        → (holds_terminal before id ≡ true) ⊎ ((j : String) → holds_terminal before j ≡ false)
        → Bounds before after

  pub record Evicted (before : Map (OperationView G)) (order : List String)
      (result : Option (Map (OperationView G) × List String)) : Type 0 where
    pub operations : Map (OperationView G)
    pub ids : List String
    pub ends : result ≡ some (operations, ids)
    pub bounded : length operations ≤ operation_retention
    pub ordered : Orders operations ids
    pub left : Bounds before operations

  absent :
      (operations : Map (OperationView G)) (j : String)
      → contains_key j operations ≡ false
      → holds_terminal operations j ≡ false
  unfolding holds_terminal
  absent operations j h = ground arith

  evict_stop :
      (fuel : ℕ) (operations : Map (OperationView G)) (order : List String)
      → ltb operation_retention (length operations) ≡ false
      → evict_operations (suc fuel) operations order ≡ some (operations, order)
  unfolding evict_operations
  evict_stop fuel operations order c = rw (evict_operations, c) refl

  evict_next :
      (fuel : ℕ) (operations : Map (OperationView G)) (order : List String) (id : String)
      → ltb operation_retention (length operations) ≡ true
      → victim operations order ≡ some id
      → evict_operations (suc fuel) operations order
        ≡ evict_operations fuel
            (remove id operations)
            (retain (λ j. not (string_eq.beq j id)) order)
  unfolding evict_operations
  evict_next fuel operations order id c e = rw (evict_operations, c) (rw e refl)

  victim-Found :
      (operations : Map (OperationView G)) (order : List String)
      → Orders operations order
      → 0 < length order
      → (id : String) × (victim operations order ≡ some id)
        × (member id order ≡ true)
        × ((holds_terminal operations id ≡ true)
            ⊎ ((j : String) → holds_terminal operations j ≡ false))
  unfolding victim
  victim-Found operations [] h l = absurd (omega arith)
  victim-Found operations (k ∷ order) h l =
      elim (Option-cases (find (holds_terminal operations) (k ∷ order))) [
        | inl e ↦ (
          k,
          rw e refl,
          ground (arith, eq_iff k k),
          inr (λ j. elim (Bool-cases (member j (k ∷ order))) [
            | inl m ↦ member-find-none (holds_terminal operations) j (k ∷ order) e m
            | inr m ↦ absent operations j (h j ∙ m)
          ]),
        )
        | inr (id, e) ↦
            let found = member-find (holds_terminal operations) id (k ∷ order) e in
            (id, rw e refl, found.0, inl found.1)
      ]

  kept_whole :
      (fuel : ℕ) (operations : Map (OperationView G)) (order : List String)
      → Orders operations order
      → ltb operation_retention (length operations) ≡ false
      → Evicted operations order (evict_operations (suc fuel) operations order)
  kept_whole fuel operations order h c = record {
    operations = operations;
    ids = order;
    ends = evict_stop fuel operations order c;
    bounded = ground arith;
    ordered = h;
    left = whole refl;
  }

  empty_order :
      (operations : Map (OperationView G)) (order : List String)
      → Orders operations order
      → length order ≤ 0
      → length operations ≡ 0
  empty_order [] order h l = refl
  empty_order ((k, v) ∷ m) order h l =
      absurd (omega (arith, ordered_some ((k, v) ∷ m) order h (omega arith)))

  evict-Evicted :
      (fuel : ℕ) (operations : Map (OperationView G)) (order : List String)
      → Orders operations order
      → length operations ≤ operation_retention + 1
      → length order ≤ fuel
      → Evicted operations order (evict_operations (suc fuel) operations order)
  evict-Evicted zero operations order h l f =
      let none_left : length operations ≡ 0 = empty_order operations order h f in
      let c : ltb operation_retention (length operations) ≡ false = ground arith in
      kept_whole zero operations order h c
  evict-Evicted (suc fuel) operations order h l f =
      elim (Bool-cases (ltb operation_retention (length operations))) [
        | inr c ↦ kept_whole (suc fuel) operations order h c
        | inl c ↦
            let some_left : 0 < length operations = ground arith in
            let (id, found, inside, choice) =
              victim-Found operations order h (ordered_some operations order h some_left) in
            let less : length (remove id operations) < length operations =
              length-remove-lt id operations (h id ∙ inside) in
            let stop : ltb operation_retention (length (remove id operations)) ≡ false =
              ground arith in
            record {
              operations = remove id operations;
              ids = retain (λ j. not (string_eq.beq j id)) order;
              ends = evict_next (suc fuel) operations order id c found ∙ evict_stop fuel _ _ stop;
              bounded = ground arith;
              ordered = remove-Orders id operations order h;
              left = drops id refl choice;
            }
      ]

  -- The state of the operations, in their bound.
  pub record IsRetained (s : Mutations G) : Type 0 where
    pub within : length s.operations ≤ operation_retention
    pub orders : Orders s.operations s.operation_order

  -- A record that is made: the state is in its bound again, and only the two fields changed.
  pub record Recorded (id : String) (view : OperationView G) (s : Mutations G)
      (result : Option (Mutations G)) : Type 0 where
    pub operations : Map (OperationView G)
    pub ids : List String
    pub ends : result ≡ some (record s { operations = operations; operation_order = ids })
    pub bounded : length operations ≤ operation_retention
    pub ordered : Orders operations ids
    pub left : Bounds (insert id view s.operations) operations

  -- From operations within their bound, the loop of `record_view` ends, and they are within it again:
  -- the record is written, and then at most one operation goes, which is terminal wherever one is.
  pub record_view-Recorded :
      (id : String) (status : OperationStatus) (progress : Option G) (s : Mutations G)
      → IsRetained s
      → Recorded id
          (record { status = status; progress = progress })
          s
          (record_view id status progress s)
  unfolding record_view
  record_view-Recorded id status progress s h =
      let view : OperationView G = record { status = status; progress = progress } in
      let order : List String =
        if contains_key id s.operations then s.operation_order else s.operation_order ++ id ∷ [] in
      let e : Evicted (insert id view s.operations) order
          (evict_operations (suc (length order)) (insert id view s.operations) order) =
        evict-Evicted (length order) (insert id view s.operations) order
          (insert-Orders id view s.operations s.operation_order h.orders)
          (length-insert-absent-le id view s.operations operation_retention h.within)
          (omega arith) in
      record {
        operations = e.operations;
        ids = e.ids;
        ends = ap (with_operations s) e.ends;
        bounded = e.bounded;
        ordered = e.ordered;
        left = e.left;
      }
