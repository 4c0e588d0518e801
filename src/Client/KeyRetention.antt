-- ===== src/Client/KeyRetention.antt =====
-- The bound on the idempotency keys that a client retains: crates/k10s-ui/src/client/state.rs.
use k10s.Base.{
  ℕ, suc, ◌+◌, ◌≤◌, ◌<◌, ◌≡◌, ◌∙◌, refl, sym, subst, inl, inr, String, Bool, true, false, not, ◌||◌,
  ◌&&◌, Option, some, List, [], ◌∷◌, ◌++◌, arith, length, ltb, if_cases, Bool-cases, string_eq,
}
use text.Mathlib.TextEquality.{eq_iff}
use k10s.Base.Maps.{Map, contains_key, insert, remove, length-remove-lt}
use k10s.Client.Operations.{Mutations, key_retention, evict_keys, retain_key}
use k10s.Client.Orders.{
  member, member-append, contains-remove, Orders, insert-Orders, ordered_some,
  length-insert-absent-le,
}

-- No key is queued twice.
abbrev pub Distinct : List String → Type 0
Distinct [] = Unit
Distinct (k ∷ ks) = (member k ks ≡ false) × Distinct ks

Distinct-append :
    (k : String) (ks : List String) → member k ks ≡ false → Distinct ks → Distinct (ks ++ k ∷ [])
Distinct-append k [] h d = (refl, tt)
Distinct-append k (j ∷ ks) h d = (
  rw (member-append j k ks) (ground (arith, d.0, eq_iff j k, eq_iff k j)),
  Distinct-append k ks (ground arith) d.1,
)

-- The oldest key goes from the map and from the front of its order.
pop-Orders :
    {V : Type 0} (k : String) (m : Map V) (ks : List String)
    → Orders m (k ∷ ks)
    → member k ks ≡ false
    → Orders (remove k m) ks
pop-Orders k m ks h n j =
    rw (contains-remove k j m) (let e = h j in rw e (others (string_eq.beq k j) refl))
  where
    others : (b : Bool) → b ≡ string_eq.beq k j → ((b || member j ks) && not b) ≡ member j ks
    others false e = ground arith
    others true e = sym (subst (λ i. member i ks ≡ false) ((eq_iff k j).0 (sym e)) n)

module _ {G : Type 0} where
  -- The state of the keys, in their bound.
  pub record IsKeyed (s : Mutations G) : Type 0 where
    pub within : length s.submitted_keys ≤ key_retention
    pub orders : Orders s.submitted_keys s.key_order
    pub distinct : Distinct s.key_order

  keys_stop :
      (fuel : ℕ) (s : Mutations G)
      → ltb key_retention (length s.submitted_keys) ≡ false
      → evict_keys (suc fuel) s ≡ some s
  unfolding evict_keys
  keys_stop fuel s c = rw (evict_keys, c) refl

  abbrev popped : String → List String → Mutations G → Mutations G
  popped oldest rest s = record s {
    submitted_keys = remove oldest s.submitted_keys;
    submitted_targets = remove oldest s.submitted_targets;
    unverified_unknown_keys = remove oldest s.unverified_unknown_keys;
    key_order = rest;
  }

  keys_next :
      (fuel : ℕ) (s : Mutations G) (oldest : String) (rest : List String)
      → ltb key_retention (length s.submitted_keys) ≡ true
      → s.key_order ≡ oldest ∷ rest
      → evict_keys (suc fuel) s ≡ evict_keys fuel (popped oldest rest s)
  unfolding evict_keys
  keys_next fuel s oldest rest c e = rw (evict_keys, c) (rw e refl)

  -- The keys fit, and the operations are as they were.
  pub record Keyed (s : Mutations G) (result : Option (Mutations G)) : Type 0 where
    pub after : Mutations G
    pub ends : result ≡ some after
    pub keyed : IsKeyed after
    pub operations : after.operations ≡ s.operations
    pub order : after.operation_order ≡ s.operation_order

  evict_keys-Keyed :
      (fuel : ℕ) (s : Mutations G) (ks : List String)
      → s.key_order ≡ ks
      → Orders s.submitted_keys ks
      → Distinct ks
      → length s.submitted_keys ≤ key_retention + 1
      → Keyed s (evict_keys (suc (suc fuel)) s)
  evict_keys-Keyed fuel s ks e h d l =
      elim (Bool-cases (ltb key_retention (length s.submitted_keys))) [
        | inr c ↦ record {
          after = s;
          ends = keys_stop (suc fuel) s c;
          keyed = record { within = ground arith; orders = rw e h; distinct = rw e d };
          operations = refl;
          order = refl;
        }
        | inl c ↦ over ks e h d c
      ]
    where
      over :
          (ks : List String)
          → s.key_order ≡ ks
          → Orders s.submitted_keys ks
          → Distinct ks
          → ltb key_retention (length s.submitted_keys) ≡ true
          → Keyed s (evict_keys (suc (suc fuel)) s)
      over [] e h d c = absurd (omega (arith, ordered_some s.submitted_keys [] h (ground arith)))
      over (oldest ∷ rest) e h d c =
          let less : length (remove oldest s.submitted_keys) < length s.submitted_keys =
            length-remove-lt oldest s.submitted_keys
              (h oldest ∙ ground (arith, eq_iff oldest oldest)) in
          record {
            after = popped oldest rest s;
            ends =
                keys_next (suc fuel) s oldest rest c e
                ∙ keys_stop fuel (popped oldest rest s) (ground arith);
            keyed = record {
              within = ground arith;
              orders = pop-Orders oldest s.submitted_keys rest h d.0;
              distinct = d.1;
            };
            operations = refl;
            order = refl;
          }

  -- From keys within their bound the loop ends.
  pub retain_key-Keyed :
      (key operation_id : String) (s : Mutations G)
      → IsKeyed s
      → Keyed s (retain_key key operation_id s)
  unfolding retain_key
  retain_key-Keyed key operation_id s h =
      if_cases (Keyed s) (contains_key key s.submitted_keys)
        (λ _. record { after = s; ends = refl; keyed = h; operations = refl; order = refl })
        (λ c.
          let written : Mutations G = record s {
            submitted_keys = insert key operation_id s.submitted_keys;
            key_order = s.key_order ++ key ∷ [];
          } in
          let orders : Orders written.submitted_keys written.key_order =
            rw c at (insert-Orders key operation_id s.submitted_keys s.key_order h.orders) in
          let unseen : member key s.key_order ≡ false = sym (h.orders key) ∙ c in
          let k : Keyed written (evict_keys (suc (suc (length s.key_order))) written) =
            evict_keys-Keyed (length s.key_order) written written.key_order refl orders
              (Distinct-append key s.key_order unseen h.distinct)
              (length-insert-absent-le key operation_id s.submitted_keys key_retention h.within) in
          record {
            after = k.after;
            ends = k.ends;
            keyed = k.keyed;
            operations = k.operations;
            order = k.order;
          })
