-- ===== src/Client/Examples.antt =====
-- Concrete lists and snapshots for crates/k10s-ui/src/client/state.rs and crates/k10s-server/src/control.rs.
use k10s.Base.{
  true, ℕ, ◌≡◌, ◌≢◌, ◌<◌, ◌^◌, max, refl, ap, false, some, none, String, List, [], ◌∷◌, arith, map,
  ok,
}
use text.Mathlib.TextEquality.{eq_iff}
use k10s.Tickets.Store.{Gvk, ResourceRef}
use k10s.Watch.Rows.{lookup_ref}
use k10s.Watch.Publisher.{
  WatchRow, ResourceRecord, ResourceListData, available, upsert, delete, SelectionPublisher,
  PublisherCall, lists, updates, draws, relists, new, publish_all, publish_current,
}
use k10s.Outbound.Queue.{SessionProtocol}
use k10s.Outbound.Session.{writes, run}
use k10s.Client.Rows.{coalescing_key, ResourceSnapshotPage, map_row, changed_delta, gone_delta}
use k10s.Client.Lists.{ResourceListState, changed, gone, apply_deltas}
use k10s.Client.Pages.{div_ceil}
use k10s.Client.Snapshots.{completed, stream_snapshot}
use k10s.Client.Views.{Views, on_snapshots}
use k10s.Client.Delivery.{stream_snapshot-IsDelivered}
use k10s.Client.Arrival.{IsDelivered}
use k10s.Client.Mirror.{client-Shows}
use k10s.Client.Shown.{Shows, receive_events}
use k10s.Client.Coalescing.{idle_session, whole}
use k10s.Client.LostUpdates.{
  forward_changed, forward_gone, receive_sent, coalescing_loses_update, coalescing_keeps_removed,
}

abbrev pods : Gvk
pods = record { group = ""; version = "v1"; kind = "Pod" }

abbrev pod : String → String → ResourceRef
pod name uid = record {
  context = "dev";
  gvk = pods;
  namespace = some "default";
  name = name;
  uid = uid;
}

abbrev cached : ResourceRef → ℕ → ResourceRecord ℕ ℕ
cached reference revision = record {
  reference = reference;
  revision = revision;
  labels = [];
  summary = "Running";
  created_at = "2026-08-21T00:00:00Z";
  owner_references = [];
  events = [];
  events_condition = available;
  manifest = "";
  projection = none;
}

abbrev same : ℕ → ℕ
same n = n

abbrev bytes : ResourceSnapshotPage ℕ → List ℕ
bytes page = page.revision ∷ []

abbrev listing : ResourceListData ℕ ℕ
listing = record {
  context = "dev";
  gvk = pods;
  namespace = none;
  revision = 1000;
  rows =
      cached (pod "web" "1") 1000 ∷ cached (pod "api" "2") 1000 ∷ cached (pod "db" "3") 1000 ∷ [];
  generated_at = "t";
}

abbrev watching : Views ℕ ℕ
watching = record {
  live_subscriptions = ("resource-0", 0) ∷ [];
  active_subscriptions = [];
  resource_specs = [];
  snapshot_assemblies = [];
  completed_snapshots = [];
  resource_lists = [];
}

pages_fit : max (div_ceil 3 2) 1 < 2 ^ 32
unfolding div_ceil
pages_fit = omega arith

stream_snapshot-IsDelivered_example :
    ((stream_snapshot same bytes (λ _. false) (λ _. none) 2 listing).1 ≡ ok completed)
    × IsDelivered "resource-0" 1000 (map (map_row same) listing.rows) watching (
        on_snapshots
          (some "resource-0")
          (stream_snapshot same bytes (λ _. false) (λ _. none) 2 listing).0
          watching)
stream_snapshot-IsDelivered_example =
    stream_snapshot-IsDelivered "resource-0" same bytes 2 listing watching refl (omega arith)
      pages_fit

abbrev row : WatchRow ℕ ℕ
row = record {
  reference = pod "web" "1";
  labels = [];
  summary = "Running";
  created_at = "2026-08-21T00:00:00Z";
  owner_references = [];
  projection = none;
}

abbrev selection : SelectionPublisher ℕ ℕ
unfolding new
selection = new (record { context = "dev"; gvk = pods; namespace = none; identity = none }) 1000

abbrev calls : List (PublisherCall ℕ ℕ)
calls =
    lists (row ∷ []) "t"
    ∷ draws
    ∷ updates (delete (pod "web" "1"))
    ∷ updates (upsert row)
    ∷ relists
    ∷ []

abbrev shown : ResourceListState ℕ
shown = record { revision = some 999; rows = [] }

client-Shows_example :
    let t = publish_all (publish_current "t" selection) calls in
    Shows same (receive_events same t.sent shown) t.rows t.revisions
unfolding new
client-Shows_example = client-Shows same shown selection "t" calls (tt, tt) (omega arith)

abbrev current : SessionProtocol
current = record { minor = 5 }

different_keys : coalescing_key (pod "web" "1") ≢ coalescing_key (pod "api" "2")
unfolding coalescing_key
different_keys e = cc ((eq_iff _ _).1 e)

coalescing_loses_update_example :
    let t = run whole (idle_session 8 2 current 0) (
      forward_changed same "resource-0" (cached (pod "web" "1") 1000)
      ∷ forward_changed same "resource-0" (cached (pod "api" "2") 1001)
      ∷ forward_changed same "resource-0" (cached (pod "web" "1") 1002)
      ∷ writes true
      ∷ writes true
      ∷ []) in
    (lookup_ref (pod "api" "2") (receive_sent t.sent shown).rows
      ≡ lookup_ref (pod "api" "2") shown.rows)
    × (lookup_ref
          (pod "api" "2")
          (apply_deltas
            (changed (changed_delta same (cached (pod "web" "1") 1000))
              ∷ changed (changed_delta same (cached (pod "api" "2") 1001))
              ∷ changed (changed_delta same (cached (pod "web" "1") 1002))
              ∷ [])
            shown).rows
        ≡ some (map_row same (cached (pod "api" "2") 1001)))
coalescing_loses_update_example =
    coalescing_loses_update same "resource-0" 8 2 current 0 shown 999 refl (omega arith)
      (omega arith) (cached (pod "web" "1") 1000) (cached (pod "api" "2") 1001)
      (cached (pod "web" "1") 1002) different_keys refl (omega arith) (omega arith) (omega arith)

different_uids : pod "web" "1" ≢ pod "web" "9"
different_uids e = cc ((eq_iff "1" "9").1 (ap (λ r. r.uid) e))

same_keys : coalescing_key (pod "web" "1") ≡ coalescing_key (pod "web" "9")
unfolding coalescing_key
same_keys = refl

coalescing_keeps_removed_example :
    let t = run whole (idle_session 8 2 current 0) (
      forward_gone "resource-0" (pod "web" "1") 1000
      ∷ forward_changed same "resource-0" (cached (pod "web" "9") 1001)
      ∷ writes true
      ∷ []) in
    (lookup_ref (pod "web" "1") (receive_sent t.sent shown).rows
      ≡ lookup_ref (pod "web" "1") shown.rows)
    × (lookup_ref
          (pod "web" "1")
          (apply_deltas
            (gone (gone_delta (pod "web" "1") 1000)
              ∷ changed (changed_delta same (cached (pod "web" "9") 1001))
              ∷ [])
            shown).rows
        ≡ none)
coalescing_keeps_removed_example =
    coalescing_keeps_removed same "resource-0" 8 2 current 0 shown 999 refl (omega arith)
      (omega arith) (pod "web" "1") 1000 (cached (pod "web" "9") 1001) same_keys different_uids
      (omega arith) (omega arith)
