-- ===== src/Client/Arrival.antt =====
-- The frames of a snapshot as the client takes them: crates/k10s-ui/src/client/state.rs.
use k10s.Base.{
  ℕ, ◌<◌, ◌≡◌, ◌≢◌, refl, ap, ◌∙◌, String, true, none, some, List, [], ◌∷◌, arith, ok, ◌==◌,
}
use text.Mathlib.TextEquality.{eq_iff}
use k10s.Base.Maps.{lookup, contains_key, insert, lookup-insert, lookup-remove}
use k10s.Client.Rows.{ResourceListRow, ResourceSnapshotPage}
use k10s.Client.Lists.{default, apply_snapshot}
use k10s.Client.Snapshots.{SnapshotFrame, chunk, end}
use k10s.Client.Views.{
  SnapshotAssembly, ResourceSnapshot, Views, Applied, on_snapshot, on_snapshots, add_page, and_then,
  owned_subscription, on_chunk, on_end, adopt_snapshot,
}

-- What two states agree on beside the watch `id`: the lists, the snapshots and the assemblies of every
-- other watch, and the subscriptions and their specs.
pub record IsElsewhere {S W : Type 0} (id : String) (v w : Views S W) : Type 0 where
  pub lists : (j : String) → id ≢ j → lookup j w.resource_lists ≡ lookup j v.resource_lists
  pub snapshots :
      (j : String) → id ≢ j → lookup j w.completed_snapshots ≡ lookup j v.completed_snapshots
  pub assemblies :
      (j : String) → id ≢ j → lookup j w.snapshot_assemblies ≡ lookup j v.snapshot_assemblies
  pub lives : w.live_subscriptions ≡ v.live_subscriptions
  pub actives : w.active_subscriptions ≡ v.active_subscriptions
  pub specs : w.resource_specs ≡ v.resource_specs

-- The list of the watch is the one that the snapshot starts; everything of the others is as it was.
pub record IsDelivered {S W : Type 0} (id : String) (revision : ℕ) (rows : List (ResourceListRow W))
    (v : Views S W) (r : Applied S W) : Type 0 where
  pub received : r.1 ≡ ok tt
  pub listed : lookup id r.0.resource_lists ≡ some (apply_snapshot revision rows default)
  pub retained :
      lookup id r.0.completed_snapshots ≡ some (record { revision = revision; rows = rows })
  pub assembled : lookup id r.0.snapshot_assemblies ≡ none
  pub others : IsElsewhere id v r.0

module _ {S W : Type 0} (id : String) where
  -- The next page in its turn.
  pub chunk_step :
      (index total revision : ℕ) (rows : List (ResourceListRow W)) (page : ResourceSnapshotPage W)
      (v : Views S W)
      → contains_key id v.live_subscriptions ≡ true
      → index < total
      → lookup id v.snapshot_assemblies
        ≡ some (record {
          total_chunks = total;
          received_chunks = index;
          revision = revision;
          rows = rows;
        })
      → on_snapshot (some id) (chunk index page) v ≡ (
        add_page id
            (record {
              total_chunks = total;
              received_chunks = index;
              revision = revision;
              rows = rows;
            })
            page
            v,
        ok tt,
      )
  unfolding on_snapshot owned_subscription on_chunk
  chunk_step index total revision rows page v live l at = rw (live, at) (ground arith)

  pub end_step :
      (checksum : ℕ) (a : SnapshotAssembly W) (s : ResourceSnapshot W) (v : Views S W)
      → contains_key id v.live_subscriptions ≡ true
      → lookup id v.snapshot_assemblies ≡ some a
      → a.received_chunks ≡ a.total_chunks
      → lookup id v.completed_snapshots ≡ some s
      → IsDelivered id s.revision s.rows v (on_snapshot (some id) (end checksum) v)
  unfolding on_snapshot owned_subscription on_end adopt_snapshot
  end_step checksum a s v live at full done =
      let same : (a.received_chunks == a.total_chunks) ≡ true = ground arith in
      rw (live, at, same, done)
        (record {
          received = refl;
          listed =
              rw (lookup-insert id id (apply_snapshot s.revision s.rows default) v.resource_lists)
                (ground (arith, eq_iff id id));
          retained = done;
          assembled = rw (lookup-remove id id v.snapshot_assemblies) (ground (arith, eq_iff id id));
          others = record {
            lists = λ j n. ground (
              arith,
              lookup-insert id j (apply_snapshot s.revision s.rows default) v.resource_lists,
              eq_iff id j,
            );
            snapshots = λ j n. refl;
            assemblies =
                λ j n. ground (arith, lookup-remove id j v.snapshot_assemblies, eq_iff id j);
            lives = refl;
            actives = refl;
            specs = refl;
          };
        })

  -- A state in which only the assembly of the watch was written, and one with its snapshot too.
  pub assembly-IsElsewhere :
      (a : SnapshotAssembly W) (v : Views S W)
      → IsElsewhere id v (record v { snapshot_assemblies = insert id a v.snapshot_assemblies })
  assembly-IsElsewhere a v = record {
    lists = λ j n. refl;
    snapshots = λ j n. refl;
    assemblies = λ j n. ground (arith, lookup-insert id j a v.snapshot_assemblies, eq_iff id j);
    lives = refl;
    actives = refl;
    specs = refl;
  }

  pub snapshot-IsElsewhere :
      (a : SnapshotAssembly W) (s : ResourceSnapshot W) (v : Views S W)
      → IsElsewhere id v (record v {
        snapshot_assemblies = insert id a v.snapshot_assemblies;
        completed_snapshots = insert id s v.completed_snapshots;
      })
  snapshot-IsElsewhere a s v = record {
    lists = λ j n. refl;
    snapshots = λ j n. ground (arith, lookup-insert id j s v.completed_snapshots, eq_iff id j);
    assemblies = λ j n. ground (arith, lookup-insert id j a v.snapshot_assemblies, eq_iff id j);
    lives = refl;
    actives = refl;
    specs = refl;
  }

  -- A delivery that starts from a state that agrees on all other watches.
  pub earlier :
      {revision : ℕ} {rows : List (ResourceListRow W)} {w v : Views S W} {r : Applied S W}
      → IsElsewhere id v w
      → IsDelivered id revision rows w r
      → IsDelivered id revision rows v r
  earlier k h = record {
    received = h.received;
    listed = h.listed;
    retained = h.retained;
    assembled = h.assembled;
    others = record {
      lists = λ j n. h.others.lists j n ∙ k.lists j n;
      snapshots = λ j n. h.others.snapshots j n ∙ k.snapshots j n;
      assemblies = λ j n. h.others.assemblies j n ∙ k.assemblies j n;
      lives = h.others.lives ∙ k.lives;
      actives = h.others.actives ∙ k.actives;
      specs = h.others.specs ∙ k.specs;
    };
  }

  -- A frame that is received, and the frames that follow it.
  pub on_snapshots_ok :
      (frame : SnapshotFrame W) (frames : List (SnapshotFrame W)) (v w : Views S W)
      → on_snapshot (some id) frame v ≡ (w, ok tt)
      → on_snapshots (some id) (frame ∷ frames) v ≡ on_snapshots (some id) frames w
  unfolding on_snapshots
  on_snapshots_ok frame frames v w e = ap (λ r. and_then r (on_snapshots (some id) frames)) e

  nothing_left : (v : Views S W) → on_snapshots (some id) [] v ≡ (v, ok tt)
  unfolding on_snapshots
  nothing_left v = refl

  pub last_frame :
      (checksum revision : ℕ) (rows : List (ResourceListRow W)) (v : Views S W)
      → IsDelivered id revision rows v (on_snapshot (some id) (end checksum) v)
      → IsDelivered id revision rows v (on_snapshots (some id) (end checksum ∷ []) v)
  last_frame checksum revision rows v h =
      let r : Applied S W = on_snapshot (some id) (end checksum) v in
      let whole : on_snapshots (some id) (end checksum ∷ []) v ≡ (r.0, ok tt) =
        on_snapshots_ok (end checksum) [] v r.0 (ap (λ x. (r.0, x)) h.received)
        ∙ nothing_left r.0 in
      rw whole (record {
        received = refl;
        listed = h.listed;
        retained = h.retained;
        assembled = h.assembled;
        others = h.others;
      })
