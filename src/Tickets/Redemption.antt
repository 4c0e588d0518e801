-- ===== src/Tickets/Redemption.antt =====
-- A ticket is redeemed at most once: crates/k10s-backend/src/validation/ticket.rs.
use text.Mathlib.Text.{starts_with}
use text.Mathlib.TextEquality.{eq_iff}
use k10s.Base.{
  ℕ, ◌-◌, ◌<◌, ◌≡◌, refl, String, not, none, some, arith, if_cases, if_some_cases, Reply, ok, err,
  panic, string_eq, subst,
}
use k10s.Base.Maps.{lookup, IsMap, lookup-remove, lookup-retain, retain_values-IsMap, remove-IsMap}
use k10s.Tickets.Store.{
  Ticket, TicketStore, UnknownTicket, unknown_or_expired, ticket_ttl, is_fresh, expire, take,
  inspect,
}

expire-IsMap : (now : ℕ) (s : TicketStore) → IsMap s.tickets → IsMap (expire now s).tickets
unfolding expire
expire-IsMap now s h = retain_values-IsMap (is_fresh now) s.tickets h

-- An absent ticket stays absent, whatever the clock.
expire-absent :
    (id : String) (now : ℕ) (s : TicketStore)
    → IsMap s.tickets
    → lookup id s.tickets ≡ none
    → lookup id (expire now s).tickets ≡ none
unfolding expire
expire-absent id now s h e = rw (lookup-retain (is_fresh now) id s.tickets h, e) refl

-- What is there after an expiry was there before, and its time has not run out.
expire-present :
    (id : String) (now : ℕ) (s : TicketStore) (t : Ticket × ℕ)
    → IsMap s.tickets
    → lookup id (expire now s).tickets ≡ some t
    → (lookup id s.tickets ≡ some t) × (now - t.1 < ticket_ttl)
unfolding expire is_fresh
expire-present id now s t h e =
    let at_id = lookup-retain (is_fresh now) id s.tickets h in ground (arith, at_id)

module _ (id : String) (now : ℕ) (s : TicketStore) (h : IsMap s.tickets) where
  take_absent : lookup id s.tickets ≡ none → (take id now s).1 ≡ err unknown_or_expired
  unfolding take
  take_absent e =
      let gone = expire-absent id now s h e in
      if_cases (λ (o : TicketStore × Reply UnknownTicket Ticket). o.1 ≡ err unknown_or_expired)
        (not (starts_with id (expire now s).instance_id)) (λ _. refl) (λ _. rw gone refl)

  inspect_absent : lookup id s.tickets ≡ none → (inspect id now s).1 ≡ err unknown_or_expired
  unfolding inspect
  inspect_absent e =
      let gone = expire-absent id now s h e in
      if_cases (λ (o : TicketStore × Reply UnknownTicket Ticket). o.1 ≡ err unknown_or_expired)
        (not (starts_with id (expire now s).instance_id)) (λ _. refl) (λ _. rw gone refl)

  -- The ticket was there, its time had not run out, and it is there no more.
  abbrev Takes : TicketStore × Reply UnknownTicket Ticket → Type 0
  Takes (t, ok ticket) =
      (issued : ℕ) × (lookup id s.tickets ≡ some (ticket, issued))
      × (now - issued < ticket_ttl)
      × IsMap t.tickets
      × (lookup id t.tickets ≡ none)
  Takes (t, err e) = Unit
  Takes (t, panic) = ⊥

  take-Takes : Takes (take id now s)
  unfolding take
  take-Takes =
      let left = expire now s in
      if_cases Takes (not (starts_with id left.instance_id)) (λ _. tt)
        λ _.
          if_some_cases Takes (lookup id left.tickets)
            (λ (ticket, issued) e.
              let (was, fresh) = expire-present id now s (ticket, issued) h e in
              (
                issued,
                was,
                fresh,
                remove-IsMap id left.tickets (expire-IsMap now s h),
                ground (arith, lookup-remove id id left.tickets, eq_iff id id),
              ))
            (λ _. tt)

-- In a store of distinct tickets, a ticket that is taken was there and had not expired, and whenever it
-- is taken or inspected again, the answer is that it is unknown.
pub take_once :
    (id : String) (now later : ℕ) (s t : TicketStore) (ticket : Ticket)
    → IsMap s.tickets
    → take id now s ≡ (t, ok ticket)
    → ((issued : ℕ) × (lookup id s.tickets ≡ some (ticket, issued)) × (now - issued < ticket_ttl))
      × ((take id later t).1 ≡ err unknown_or_expired)
      × ((inspect id later t).1 ≡ err unknown_or_expired)
take_once id now later s t ticket h e =
    let (issued, was, fresh, keys, gone) = subst (Takes id now s h) e (take-Takes id now s h) in
    ((issued, was, fresh), take_absent id later t keys gone, inspect_absent id later t keys gone)
