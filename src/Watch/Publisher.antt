-- ===== src/Watch/Publisher.antt =====
-- `SelectionPublisher` of crates/k10s-backend/src/runtime/supervisor.rs over the `SummaryCache` and the
-- `RevisionCounter` of runtime/cache.rs. An owner reference and a projection are of any types `O` and
-- `P`, the text of the clock is an argument, and `sent` is all that the channel was given, oldest
-- first. The counter wraps like an `AtomicU64`.
use k10s.Base.{
  ℕ, ◌+◌, ◌%◌, ◌^◌, String, Bool, true, false, not, Option, List, [], ◌∷◌, ◌++◌, map, length,
  retain, if◌then◌else◌,
}
use k10s.Tickets.Store.{Gvk, ResourceRef}
use k10s.Watch.Rows.{WatchSelector, matches, insert_ref, remove_ref}

pub data RecordEventsCondition : Type 0 where
  available : RecordEventsCondition
  unavailable : RecordEventsCondition

pub record WatchRow (O P : Type 0) : Type 0 where
  pub reference : ResourceRef
  pub labels : List (String × String)
  pub summary : String
  pub created_at : String
  pub owner_references : List O
  pub projection : Option P

pub record RecordEvent : Type 0 where
  pub reason : String
  pub message : String
  pub count : ℕ
  pub last_seen : String

pub record ResourceRecord (O P : Type 0) : Type 0 where
  pub reference : ResourceRef
  pub revision : ℕ
  pub labels : List (String × String)
  pub summary : String
  pub created_at : String
  pub owner_references : List O
  pub events : List RecordEvent
  pub events_condition : RecordEventsCondition
  pub manifest : String
  pub projection : Option P

pub record ResourceListData (O P : Type 0) : Type 0 where
  pub context : String
  pub gvk : Gvk
  pub namespace : Option String
  pub revision : ℕ
  pub rows : List (ResourceRecord O P)
  pub generated_at : String

pub data BackendEvent (O P : Type 0) : Type 0 where
  snapshot : ResourceListData O P → BackendEvent O P
  changed : ResourceRecord O P → BackendEvent O P
  gone : ResourceRef → ℕ → BackendEvent O P

pub data WatchUpdate (O P : Type 0) : Type 0 where
  upsert : WatchRow O P → WatchUpdate O P
  delete : ResourceRef → WatchUpdate O P

pub record SelectionPublisher (O P : Type 0) : Type 0 where
  pub selector : WatchSelector
  pub rows : List (ResourceRef × ResourceRecord O P)
  pub stale : Bool
  pub revisions : ℕ
  pub sent : List (BackendEvent O P)

abbrev pub initial_watch_revision : ℕ
initial_watch_revision = 1000

module _ {O P : Type 0} where
  unfoldable pub new : WatchSelector → ℕ → SelectionPublisher O P
  new selector revisions = record {
    selector = selector;
    rows = [];
    stale = false;
    revisions = revisions;
    sent = [];
  }

  unfoldable pub next : SelectionPublisher O P → SelectionPublisher O P
  next s = record s { revisions = (s.revisions + 1) % 2 ^ 64 }

  unfoldable pub record_from_row : WatchRow O P → ℕ → ResourceRecord O P
  record_from_row row revision = record {
    reference = row.reference;
    revision = revision;
    labels = row.labels;
    summary = row.summary;
    created_at = row.created_at;
    owner_references = row.owner_references;
    events = [];
    events_condition = available;
    manifest = "";
    projection = row.projection;
  }

  -- `collect` into the map: a later row replaces an earlier one of its identity.
  unfoldable pub stamped :
      ℕ
      → List (WatchRow O P)
      → List (ResourceRef × ResourceRecord O P)
      → List (ResourceRef × ResourceRecord O P)
  stamped revision [] m = m
  stamped revision (row ∷ rows) m =
      stamped revision rows (insert_ref row.reference (record_from_row row revision) m)

  abbrev pub values : List (ResourceRef × ResourceRecord O P) → List (ResourceRecord O P)
  values = map (λ e. e.1)

  unfoldable pub send : BackendEvent O P → SelectionPublisher O P → SelectionPublisher O P
  send e s = record s { sent = s.sent ++ e ∷ [] }

  -- The snapshot of the rows of `s` at the revision.
  unfoldable pub snapshot_of : ℕ → String → SelectionPublisher O P → BackendEvent O P
  snapshot_of revision now s = snapshot (record {
    context = s.selector.context;
    gvk = s.selector.gvk;
    namespace = s.selector.namespace;
    revision = revision;
    rows = values s.rows;
    generated_at = now;
  })

  unfoldable row_count : SelectionPublisher O P → ℕ
  row_count s = length s.rows

  unfoldable is_stale : SelectionPublisher O P → Bool
  is_stale s = s.stale

  unfoldable pub mark_stale : SelectionPublisher O P → SelectionPublisher O P
  mark_stale s = record s { stale = true }

  unfoldable pub replace : List (WatchRow O P) → SelectionPublisher O P → SelectionPublisher O P
  replace rows s = record (next s) { rows = stamped s.revisions rows []; stale = false }

  unfoldable pub apply_list :
      List (WatchRow O P) → String → SelectionPublisher O P → SelectionPublisher O P
  apply_list listed now s =
      let t = replace (retain (λ row. matches s.selector row.reference) listed) s in
      send (snapshot_of s.revisions now t) t

  unfoldable pub apply_update : WatchUpdate O P → SelectionPublisher O P → SelectionPublisher O P
  apply_update (upsert row) s =
      if not (matches s.selector row.reference)
      then s
      else let r = record_from_row row s.revisions in
        send (changed r) (record (next s) { rows = insert_ref row.reference r s.rows })
  apply_update (delete reference) s =
      if not (matches s.selector reference)
      then s
      else send (gone reference s.revisions)
          (record (next s) { rows = remove_ref reference s.rows })

  unfoldable pub publish_current : String → SelectionPublisher O P → SelectionPublisher O P
  publish_current now s = send (snapshot_of s.revisions now s) (next s)

pub data PublisherCall (O P : Type 0) : Type 0 where
  lists : List (WatchRow O P) → String → PublisherCall O P
  updates : WatchUpdate O P → PublisherCall O P
  joins : String → PublisherCall O P
  relists : PublisherCall O P
  draws : PublisherCall O P

module _ {O P : Type 0} where
  -- The last call is another selection's, which draws a revision from the shared counter.
  unfoldable pub publish : SelectionPublisher O P → PublisherCall O P → SelectionPublisher O P
  publish s (lists rows now) = apply_list rows now s
  publish s (updates update) = apply_update update s
  publish s (joins now) = publish_current now s
  publish s relists = mark_stale s
  publish s draws = next s

  unfoldable pub publish_all :
      SelectionPublisher O P → List (PublisherCall O P) → SelectionPublisher O P
  publish_all s [] = s
  publish_all s (c ∷ cs) = publish_all (publish s c) cs
