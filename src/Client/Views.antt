-- ===== src/Client/Views.antt =====
-- The watches of a client: the fields and branches of `ClientState` in
-- crates/k10s-ui/src/client/state.rs that keep the selectors, the snapshots that arrive and the lists
-- that result. A subscription ID is a text, a selector is of any type `S`, a `HashSet` is a map to the
-- unit. `Views` holds these fields of the state; the phase and the queues are in Client.Link.
use k10s.Base.{
  ℕ, suc, String, Bool, not, ◌||◌, Option, none, some, List, [], ◌∷◌, ◌++◌, max, leb, ◌==◌,
  if◌then◌else◌, if_some, Reply, ok, err, panic,
}
use k10s.Base.Maps.{Map, lookup, contains_key, insert, remove}
use k10s.Client.Rows.{
  ResourceIdentity, ResourceListRow, ResourceSnapshotPage, ResourceWatchSpec, spec_matches_identity,
}
use k10s.Client.Lists.{
  ResourceListState, default, apply_snapshot, apply_changed, apply_gone, ListDelta, changed, gone,
}
use k10s.Client.Errors.{ClientError, protocol}
use k10s.Client.Snapshots.{SnapshotFrame, begin, chunk, end}

pub record SnapshotAssembly (W : Type 0) : Type 0 where
  pub total_chunks : ℕ
  pub received_chunks : ℕ
  pub revision : ℕ
  pub rows : List (ResourceListRow W)

pub record ResourceSnapshot (W : Type 0) : Type 0 where
  pub revision : ℕ
  pub rows : List (ResourceListRow W)

pub record Views (S W : Type 0) : Type 0 where
  pub live_subscriptions : Map S
  pub active_subscriptions : Map (Unit {0})
  pub resource_specs : Map ResourceWatchSpec
  pub snapshot_assemblies : Map (SnapshotAssembly W)
  pub completed_snapshots : Map (ResourceSnapshot W)
  pub resource_lists : Map (ResourceListState W)

-- A result, with the state that it comes with.
abbrev pub Applied : Type 0 → Type 0 → Type 0
Applied S W = Views S W × Reply ClientError (Unit {0})

module _ {S W : Type 0} where
  -- The ID of a frame, if its subscription is desired.
  unfoldable pub owned_subscription : Option String → Views S W → Option String
  owned_subscription none v = none
  owned_subscription (some id) v = if contains_key id v.live_subscriptions then some id else none

  unfoldable pub spec_matches : String → ResourceIdentity → Views S W → Bool
  spec_matches id identity v =
      if_some (lookup id v.resource_specs) (λ spec. spec_matches_identity spec identity) Bool.false

  -- The arm of `Subscribed`, without the check of the validity that follows it.
  unfoldable pub apply_subscribed : String → Views S W → Views S W
  apply_subscribed id v =
      if contains_key id v.live_subscriptions
      then record v { active_subscriptions = insert id tt v.active_subscriptions }
      else v

  -- The write of a list, if there is one and the watch selects the object.
  abbrev pub updating_list :
      Option String
      → ResourceIdentity
      → (ResourceListState W → ResourceListState W)
      → Views S W
      → Views S W
  updating_list none identity f v = v
  updating_list (some id) identity f v =
      if spec_matches id identity v
      then if_some (lookup id v.resource_lists)
          (λ state. record v { resource_lists = insert id (f state) v.resource_lists }) v
      else v

  unfoldable pub on_delta : Option String → ListDelta W → Views S W → Applied S W
  unfolding owned_subscription spec_matches
  on_delta subscription (changed delta) v = (
    updating_list (owned_subscription subscription v) delta.identity
        (apply_changed delta.identity delta.row) v,
    ok tt,
  )
  on_delta subscription (gone delta) v = (
    updating_list (owned_subscription subscription v) delta.identity
        (apply_gone delta.identity delta.revision) v,
    ok tt,
  )

  unfoldable pub on_begin : String → ℕ → Views S W → Applied S W
  on_begin id total v = (
    record v {
      snapshot_assemblies =
          insert id (record { total_chunks = total; received_chunks = 0; revision = 0; rows = [] })
            v.snapshot_assemblies;
    },
    ok tt,
  )

  -- A page in its turn; the last one completes the snapshot and empties the assembly.
  unfoldable pub add_page :
      String → SnapshotAssembly W → ResourceSnapshotPage W → Views S W → Views S W
  add_page id a page v =
      let received = suc a.received_chunks in
      let revision = max a.revision page.revision in
      let rows = a.rows ++ page.rows in
      if received == a.total_chunks
      then record v {
        snapshot_assemblies =
            insert id (record a { received_chunks = received; revision = revision; rows = [] })
              v.snapshot_assemblies;
        completed_snapshots =
            insert id (record { revision = revision; rows = rows }) v.completed_snapshots;
      }
      else record v {
        snapshot_assemblies =
            insert id (record a { received_chunks = received; revision = revision; rows = rows })
              v.snapshot_assemblies;
      }

  unfoldable pub on_chunk : String → ℕ → ResourceSnapshotPage W → Views S W → Applied S W
  unfolding add_page
  on_chunk id index page v =
      if_some (lookup id v.snapshot_assemblies)
        (λ a.
          if not (index == a.received_chunks) || leb a.total_chunks a.received_chunks
          then (v, err (protocol "snapshot chunk out of order"))
          else (add_page id a page v, ok tt))
        (v, ok tt)

  -- The list that a completed snapshot starts. The `debug_assert` is not modelled.
  unfoldable pub adopt_snapshot : String → Views S W → Views S W
  adopt_snapshot id v =
      if_some (lookup id v.completed_snapshots)
        (λ s. record v {
          resource_lists = insert id (apply_snapshot s.revision s.rows default) v.resource_lists;
        })
        v

  unfoldable pub on_end : String → Views S W → Applied S W
  unfolding adopt_snapshot
  on_end id v =
      let w = record v { snapshot_assemblies = remove id v.snapshot_assemblies } in
      if_some (lookup id v.snapshot_assemblies)
        (λ a.
          if a.received_chunks == a.total_chunks
          then (adopt_snapshot id w, ok tt)
          else (w, err (protocol "snapshot ended before all chunks arrived")))
        (w, err (protocol "snapshot ended before all chunks arrived"))

  abbrev pub on_owned : Option String → SnapshotFrame W → Views S W → Applied S W
  on_owned none frame v = (v, ok tt)
  on_owned (some id) (begin total) v = on_begin id total v
  on_owned (some id) (chunk index page) v = on_chunk id index page v
  on_owned (some id) (end checksum) v = on_end id v

  -- The three arms for the frames of a snapshot.
  unfoldable pub on_snapshot : Option String → SnapshotFrame W → Views S W → Applied S W
  unfolding owned_subscription on_begin on_chunk on_end
  on_snapshot subscription frame v = on_owned (owned_subscription subscription v) frame v

  abbrev pub and_then : Applied S W → (Views S W → Applied S W) → Applied S W
  and_then (v, ok u) next = next v
  and_then (v, err e) next = (v, err e)
  and_then (v, panic) next = (v, panic)

  -- Frames in their order, up to the first error.
  unfoldable pub on_snapshots : Option String → List (SnapshotFrame W) → Views S W → Applied S W
  on_snapshots subscription [] v = (v, ok tt)
  on_snapshots subscription (frame ∷ frames) v =
      and_then (on_snapshot subscription frame v) (on_snapshots subscription frames)

  -- `retire_subscription_state`, without the check of the validity at its end.
  unfoldable pub retire : String → Views S W → Views S W × Bool
  retire id v =
      if contains_key id v.live_subscriptions
      then (
        record {
          live_subscriptions = remove id v.live_subscriptions;
          active_subscriptions = remove id v.active_subscriptions;
          resource_specs = remove id v.resource_specs;
          snapshot_assemblies = remove id v.snapshot_assemblies;
          completed_snapshots = remove id v.completed_snapshots;
          resource_lists = remove id v.resource_lists;
        },
        Bool.true,
      )
      else (v, Bool.false)

  unfoldable pub take_resource_snapshot :
      String → Views S W → Views S W × Option (ResourceSnapshot W)
  take_resource_snapshot id v = (
    record v { completed_snapshots = remove id v.completed_snapshots },
    lookup id v.completed_snapshots,
  )
