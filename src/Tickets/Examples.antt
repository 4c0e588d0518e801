-- ===== src/Tickets/Examples.antt =====
-- Concrete tickets for crates/k10s-backend/src/validation/ticket.rs.
use k10s.Base.{ℕ, ◌<◌, ◌-◌, ◌≡◌, refl, false, some, [], ◌∷◌, ok, err}
use k10s.Base.Maps.{lookup}
use k10s.Tickets.Store.{
  Ticket, TicketStore, ticket_ttl, take, inspect, issue, unknown_or_expired, expire, is_fresh,
}
use k10s.Tickets.Issue.{IsQueued, Issues, issue-Issues}
use k10s.Tickets.Redemption.{take_once}

abbrev ticket : Ticket
ticket = record {
  id = "i:u";
  target = record {
    context = "dev";
    gvk = record { group = ""; version = "v1"; kind = "ConfigMap" };
    namespace = some "default";
    name = "settings";
    uid = "uid-1";
  };
  resource_revision = 1;
  opaque_resource_version = some "42";
  issued_revision = 1;
  buffer_hash = "hash";
  disruptive = false;
}

abbrev store : TicketStore
store = record { tickets = ("i:u", (ticket, 10)) ∷ []; order = "i:u" ∷ []; instance_id = "i" }

abbrev spent : TicketStore
spent = record { tickets = []; order = []; instance_id = "i" }

taken : take "i:u" 20 store ≡ (spent, ok ticket)
unfolding take expire is_fresh
taken = refl

take_once_example :
    ((issued : ℕ) × (lookup "i:u" store.tickets ≡ some (ticket, issued))
      × (20 - issued < ticket_ttl))
    × ((take "i:u" 30 spent).1 ≡ err unknown_or_expired)
    × ((inspect "i:u" 30 spent).1 ≡ err unknown_or_expired)
take_once_example = take_once "i:u" 20 30 store spent ticket (refl, tt) taken

empty-IsQueued : IsQueued spent
empty-IsQueued = record { keys = tt; queued = λ id e. cc }

issue-Issues_example : Issues (issue "v" 25 ticket spent)
issue-Issues_example = issue-Issues "v" 25 ticket spent empty-IsQueued
