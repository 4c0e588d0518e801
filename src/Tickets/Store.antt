-- ===== src/Tickets/Store.antt =====
-- `TicketStore` of crates/k10s-backend/src/validation/ticket.rs, with the records it holds, of operation.rs
-- and port.rs beside it. The clock and the fresh UUID of a call are its arguments.
use Prim.Native.String.{◌++◌ as append}
use text.Mathlib.Text.{starts_with}
use k10s.Base.{
  ℕ, zero, suc, ◌-◌, String, Bool, not, Option, none, some, List, [], ◌∷◌, ◌++◌, ltb, if◌then◌else◌,
  if_some, length, retain, Reply, ok, err, string_eq,
}
use k10s.Base.Maps.{Map, lookup, contains_key, insert, remove, retain_values}

pub record Gvk : Type 0 where
  pub group : String
  pub version : String
  pub kind : String

pub record ResourceRef : Type 0 where
  pub context : String
  pub gvk : Gvk
  pub namespace : Option String
  pub name : String
  pub uid : String

pub record Ticket : Type 0 where
  pub id : String
  pub target : ResourceRef
  pub resource_revision : ℕ
  pub opaque_resource_version : Option String
  pub issued_revision : ℕ
  pub buffer_hash : String
  pub disruptive : Bool

pub record TicketStore : Type 0 where
  pub tickets : Map (Ticket × ℕ)
  pub order : List String
  pub instance_id : String

abbrev pub ticket_capacity : ℕ
ticket_capacity = 1024

-- In seconds.
abbrev pub ticket_ttl : ℕ
ticket_ttl = 300

-- The only error of the store, a `Conflict` with a fixed text.
pub data UnknownTicket : Type 0 where
  unknown_or_expired : UnknownTicket

unfoldable pub new : String → TicketStore
new uuid = record { tickets = []; order = []; instance_id = uuid }

unfoldable pub is_fresh : ℕ → Ticket × ℕ → Bool
is_fresh now (ticket, issued) = ltb (now - issued) ticket_ttl

unfoldable pub expire : ℕ → TicketStore → TicketStore
expire now s =
    let tickets = retain_values (is_fresh now) s.tickets in
    record s { tickets = tickets; order = retain (λ id. contains_key id tickets) s.order }

-- The `while` of `issue`, on fuel: `none` is a loop that has not ended.
unfoldable pub evict_loop : ℕ → TicketStore → Option TicketStore
evict_loop zero s = none
evict_loop (suc fuel) s =
    if ltb ticket_capacity (length s.tickets)
    then elim s.order [
      | [] ↦ evict_loop fuel s
      | id ∷ rest ↦ evict_loop fuel (record s { tickets = remove id s.tickets; order = rest })
    ]
    else some s

unfoldable pub stored : String → ℕ → Ticket → TicketStore → TicketStore × Ticket
stored uuid now ticket s =
    let id = append s.instance_id (append ":" uuid) in
    let ticket = record ticket { id = id } in
    (record s { order = s.order ++ id ∷ []; tickets = insert id (ticket, now) s.tickets }, ticket)

unfoldable pub issue : String → ℕ → Ticket → TicketStore → Option (TicketStore × Ticket)
issue uuid now ticket s =
    let (s, ticket) = stored uuid now ticket (expire now s) in
    if_some (evict_loop (suc (length s.order)) s) (λ s. some (s, ticket)) none

unfoldable pub take : String → ℕ → TicketStore → TicketStore × Reply UnknownTicket Ticket
take id now s =
    let s = expire now s in
    if not (starts_with id s.instance_id)
    then (s, err unknown_or_expired)
    else if_some (lookup id s.tickets)
        (λ t. (
          record s {
            tickets = remove id s.tickets;
            order = retain (λ queued. not (string_eq.beq queued id)) s.order;
          },
          ok t.0,
        ))
        (s, err unknown_or_expired)

unfoldable pub inspect : String → ℕ → TicketStore → TicketStore × Reply UnknownTicket Ticket
inspect id now s =
    let s = expire now s in
    if not (starts_with id s.instance_id)
    then (s, err unknown_or_expired)
    else if_some (lookup id s.tickets) (λ t. (s, ok t.0)) (s, err unknown_or_expired)
