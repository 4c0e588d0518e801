-- ===== src/Tickets/Issue.antt =====
-- The loop of `issue` ends: crates/k10s-backend/src/validation/ticket.rs.
use text.Mathlib.TextEquality.{eq_iff}
use k10s.Base.{
  ℕ, zero, suc, ◌≤◌, ◌<◌, ◌≡◌, refl, inl, inr, ◌⊎◌, String, Bool, true, ◌||◌, Option, none, some,
  List, [], ◌∷◌, ◌++◌, arith, length, any, retain, ltb, if_cases, if_some_cases, string_eq, subst,
}
use k10s.Base.Maps.{
  Map, contains_key, remove, retain_values, IsMap, lookup-insert, lookup-remove, lookup-retain,
  retain_values-IsMap, insert-IsMap, remove-IsMap,
}
use k10s.Tickets.Store.{
  Ticket, TicketStore, ticket_capacity, is_fresh, expire, evict_loop, stored, issue,
}

abbrev pub names : List String → String → Bool
names order id = any (λ x. string_eq.beq x id) order

-- Distinct tickets, each in the queue that the eviction takes from.
pub record IsQueued (s : TicketStore) : Type 0 where
  pub keys : IsMap s.tickets
  pub queued : (id : String) → contains_key id s.tickets ≡ true → names s.order id ≡ true

names-append :
    (order : List String) (id j : String)
    → names (order ++ id ∷ []) j ≡ (names order j || string_eq.beq id j)
names-append [] id j = ground arith
names-append (x ∷ order) id j = ground (arith, names-append order id j)

names-retain :
    (p : String → Bool) (order : List String) (id : String)
    → names order id ≡ true
    → p id ≡ true
    → names (retain p order) id ≡ true
names-retain p [] id h k = h
names-retain p (x ∷ order) id h k = ground (arith, names-retain p order id, eq_iff x id)

expire-IsQueued : (now : ℕ) (s : TicketStore) → IsQueued s → IsQueued (expire now s)
unfolding expire
expire-IsQueued now s h =
    let kept = retain_values (is_fresh now) s.tickets in
    record {
      keys = retain_values-IsMap (is_fresh now) s.tickets h.keys;
      queued = λ id e.
          names-retain (λ j. contains_key j kept) s.order id
            (h.queued id (ground (arith, lookup-retain (is_fresh now) id s.tickets h.keys))) e;
    }

stored-IsQueued :
    (uuid : String) (now : ℕ) (ticket : Ticket) (s : TicketStore)
    → IsQueued s
    → IsQueued (stored uuid now ticket s).0
unfolding stored
stored-IsQueued uuid now ticket s h =
    let new_id = (stored uuid now ticket s).1.id in
    record {
      keys = insert-IsMap new_id _ s.tickets h.keys;
      queued = λ id e. ground (
        arith,
        names-append s.order new_id id,
        lookup-insert new_id id ((stored uuid now ticket s).1, now) s.tickets,
        h.queued id,
      );
    }

popped-IsQueued :
    (id : String) (rest : List String) (s : TicketStore)
    → s.order ≡ id ∷ rest
    → IsQueued s
    → IsQueued (record s { tickets = remove id s.tickets; order = rest })
popped-IsQueued id rest s e h = record {
  keys = remove-IsMap id s.tickets h.keys;
  queued = λ j c.
      let at_front =
        subst (λ order. contains_key j s.tickets ≡ true → names order j ≡ true) e (h.queued j) in
      ground (arith, lookup-remove id j s.tickets, eq_iff id j, at_front);
}

order_cases :
    (order : List String)
    → (order ≡ []) ⊎ ((id : String) × (rest : List String) × (order ≡ id ∷ rest))
order_cases [] = inl refl
order_cases (id ∷ rest) = inr (id, rest, refl)

no_tickets :
    (m : Map (Ticket × ℕ))
    → ((id : String) → contains_key id m ≡ true → names [] id ≡ true)
    → length m ≡ 0
no_tickets [] h = refl
no_tickets ((k, t) ∷ m) h = absurd (let here = h k (ground (arith, eq_iff k k)) in cc)

-- The loop has ended, within the capacity.
abbrev pub Evicts : Option TicketStore → Type 0
Evicts none = ⊥
Evicts (some s) = IsQueued s × (length s.tickets ≤ ticket_capacity)

evict_loop-Evicts :
    (fuel : ℕ) (s : TicketStore) → length s.order < fuel → IsQueued s → Evicts (evict_loop fuel s)
unfolding evict_loop
evict_loop-Evicts zero s f h = absurd (omega arith)
evict_loop-Evicts (suc fuel) s f h =
    if_cases Evicts (ltb ticket_capacity (length s.tickets))
      (λ c. elim (order_cases s.order) [
        | inl e ↦
            let empty = no_tickets s.tickets (
              subst
                (λ order. (id : String) → contains_key id s.tickets ≡ true → names order id ≡ true)
                e h.queued) in
            absurd (ground arith)
        | inr (id, rest, e) ↦ rw e (
            evict_loop-Evicts fuel (record s { tickets = remove id s.tickets; order = rest })
              (omega (arith, (rw e at f))) (popped-IsQueued id rest s e h))
      ])
      (λ c. (h, ground arith))

abbrev pub Issues : Option (TicketStore × Ticket) → Type 0
Issues none = ⊥
Issues (some (s, ticket)) = IsQueued s × (length s.tickets ≤ ticket_capacity)

-- In a store of distinct tickets that are all queued, the loop of `issue` ends, and leaves no more
-- tickets than the capacity, each still queued.
pub issue-Issues :
    (uuid : String) (now : ℕ) (ticket : Ticket) (s : TicketStore)
    → IsQueued s
    → Issues (issue uuid now ticket s)
unfolding issue
issue-Issues uuid now ticket s h =
    let o = stored uuid now ticket (expire now s) in
    let queued = stored-IsQueued uuid now ticket (expire now s) (expire-IsQueued now s h) in
    let evicts = evict_loop-Evicts (suc (length o.0.order)) o.0 (omega arith) queued in
    if_some_cases Issues (evict_loop (suc (length o.0.order)) o.0) (λ t e. rw e at evicts)
      (λ e. rw e at evicts)
