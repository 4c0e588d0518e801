-- ===== src/Watch/Examples.antt =====
-- A concrete selection for crates/k10s-backend/src/runtime/supervisor.rs.
use k10s.Base.{ℕ, some, none, List, [], ◌∷◌, arith}
use k10s.Tickets.Store.{Gvk, ResourceRef}
use k10s.Watch.Publisher.{
  WatchRow, upsert, delete, SelectionPublisher, PublisherCall, lists, updates, draws, relists, new,
  publish_all, publish_current,
}
use k10s.Watch.Mirror.{View, IsMirror, joiner-IsMirror}
use k10s.Watch.Revisions.{IsInOrder, publish_all-IsInOrder}

abbrev pods : Gvk
pods = record { group = ""; version = "v1"; kind = "Pod" }

abbrev web : ResourceRef
web = record { context = "dev"; gvk = pods; namespace = some "default"; name = "web"; uid = "1" }

abbrev row : WatchRow ℕ ℕ
row = record {
  reference = web;
  labels = [];
  summary = "Running";
  created_at = "2026-08-21T00:00:00Z";
  owner_references = [];
  projection = none;
}

abbrev selection : SelectionPublisher ℕ ℕ
unfolding new
selection = new (record { context = "dev"; gvk = pods; namespace = none; identity = none }) 1000

abbrev calls : List (PublisherCall ℕ ℕ)
calls = lists (row ∷ []) "t" ∷ draws ∷ updates (delete web) ∷ updates (upsert row) ∷ relists ∷ []

abbrev ignorant : View ℕ ℕ
ignorant k = none

joiner-IsMirror_example : IsMirror ignorant (publish_all (publish_current "t" selection) calls)
unfolding new
joiner-IsMirror_example = joiner-IsMirror ignorant selection "t" calls tt

publish_all-IsInOrder_example : IsInOrder (publish_all selection calls)
unfolding new
publish_all-IsInOrder_example = publish_all-IsInOrder selection calls (omega arith) (omega arith)
