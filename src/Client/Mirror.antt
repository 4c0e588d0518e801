-- ===== src/Client/Mirror.antt =====
-- The list of a client beside the cache of the selection that it watches:
-- crates/k10s-ui/src/client/state.rs and crates/k10s-backend/src/runtime/supervisor.rs.
use k10s.Base.{
  ℕ, ◌+◌, ◌%◌, ◌^◌, ◌≤◌, ◌<◌, ◌≡◌, refl, String, not, List, [], ◌∷◌, ◌++◌, arith, length, retain,
  if_cases,
}
use k10s.Watch.Rows.{matches}
use k10s.Watch.Publisher.{
  WatchRow, BackendEvent, changed, gone, upsert, delete, SelectionPublisher, next, record_from_row,
  stamped, send, snapshot_of, replace, apply_list, apply_update, publish_current, PublisherCall,
  lists, updates, joins, relists, draws, publish, publish_all, mark_stale,
}
use k10s.Watch.Mirror.{remove_ref-IsKeyed}
use k10s.Client.Lists.{ResourceListState}
use k10s.Client.Shown.{
  IsCache, receive_event, receive_events, receive_events-append, Shows, snapshot-Shows,
  changed-Shows, gone-Shows, insert_ref-IsCache, stamped-IsCache, remove_ref-IsRefMap,
}

module _ {O P W : Type 0} (map_projection : P → W) where
  -- What the client that began with `c` shows, and how far the counter went from `lo`.
  pub record IsShown (c : ResourceListState W) (lo : ℕ) (s : SelectionPublisher O P) : Type 0 where
    pub cache : IsCache map_projection s.rows
    pub shown : Shows map_projection (receive_events map_projection s.sent c) s.rows s.revisions
    pub advanced : s.revisions ≤ lo

  -- An event that is sent with the next revision.
  sent-IsShown :
      (c : ResourceListState W) (s t : SelectionPublisher O P) (e : BackendEvent O P)
      → s.revisions + 1 < 2 ^ 64
      → IsCache map_projection t.rows
      → t.sent ≡ s.sent ++ e ∷ []
      → t.revisions ≡ (s.revisions + 1) % 2 ^ 64
      → Shows map_projection
          (receive_event map_projection e (receive_events map_projection s.sent c))
          t.rows
          (s.revisions + 1)
      → IsShown c (s.revisions + 1) t
  sent-IsShown c s t e l h sent counter shows =
      let up : t.revisions ≡ s.revisions + 1 = omega arith in
      record {
        cache = h;
        shown = rw (sent, up, receive_events-append map_projection s.sent e c) shows;
        advanced = omega arith;
      }

  joined-IsShown :
      (c : ResourceListState W) (s : SelectionPublisher O P) (now : String)
      → s.revisions + 1 < 2 ^ 64
      → IsCache map_projection s.rows
      → IsShown c (s.revisions + 1) (publish_current now s)
  unfolding publish_current next snapshot_of send receive_event
  joined-IsShown c s now l h = sent-IsShown c s _ _ l h refl refl (
      snapshot-Shows map_projection s.revisions (s.revisions + 1) s.rows
        (receive_events map_projection s.sent c) h (omega arith))

  listed-IsShown :
      (c : ResourceListState W) (s : SelectionPublisher O P) (rows : List (WatchRow O P))
      (now : String)
      → s.revisions + 1 < 2 ^ 64
      → IsShown c (s.revisions + 1) (apply_list rows now s)
  unfolding apply_list replace next snapshot_of send receive_event
  listed-IsShown c s rows now l =
      let m = stamped s.revisions (retain (λ row. matches s.selector row.reference) rows) [] in
      let h : IsCache map_projection m = stamped-IsCache map_projection s.revisions _ [] (tt, tt) in
      sent-IsShown c s _ _ l h refl refl (
        snapshot-Shows map_projection s.revisions (s.revisions + 1) m
          (receive_events map_projection s.sent c) h (omega arith))

  kept-IsShown :
      (c : ResourceListState W) (s : SelectionPublisher O P)
      → IsShown c s.revisions s
      → IsShown c (s.revisions + 1) s
  kept-IsShown c s h = record { cache = h.cache; shown = h.shown; advanced = omega arith }

  publish-IsShown :
      (c : ResourceListState W) (s : SelectionPublisher O P) (call : PublisherCall O P)
      → s.revisions + 1 < 2 ^ 64
      → IsShown c s.revisions s
      → IsShown c (s.revisions + 1) (publish s call)
  unfolding publish apply_update mark_stale next send record_from_row
  publish-IsShown c s (lists rows now) l h = listed-IsShown c s rows now l
  publish-IsShown c s (updates (upsert row)) l h =
      let r = record_from_row row s.revisions in
      if_cases (IsShown c (s.revisions + 1)) (not (matches s.selector row.reference))
        (λ _. kept-IsShown c s h)
        (λ _.
          sent-IsShown c s _ (changed r) l
            (insert_ref-IsCache map_projection row.reference r s.rows refl h.cache) refl refl
            (changed-Shows map_projection r s.rows (receive_events map_projection s.sent c)
              s.revisions refl h.shown))
  publish-IsShown c s (updates (delete reference)) l h =
      if_cases (IsShown c (s.revisions + 1)) (not (matches s.selector reference))
        (λ _. kept-IsShown c s h)
        (λ _.
          sent-IsShown c s _ (gone reference s.revisions) l
            (
              remove_ref-IsRefMap reference s.rows h.cache.0,
              remove_ref-IsKeyed reference s.rows h.cache.1,
            )
            refl refl
            (gone-Shows map_projection reference s.rows (receive_events map_projection s.sent c)
              s.revisions h.shown))
  publish-IsShown c s (joins now) l h = joined-IsShown c s now l h.cache
  publish-IsShown c s relists l h = record {
    cache = h.cache;
    shown = h.shown;
    advanced = omega arith;
  }
  publish-IsShown c s draws l h =
      let up : (s.revisions + 1) % 2 ^ 64 ≡ s.revisions + 1 = omega arith in
      record {
        cache = h.cache;
        shown = rw up (record {
          at = h.shown.at;
          based = h.shown.based;
          before = omega (arith, h.shown.before);
          shows = h.shown.shows;
        });
        advanced = omega arith;
      }

  publish_all-IsShown :
      (c : ResourceListState W) (s : SelectionPublisher O P) (calls : List (PublisherCall O P))
      → s.revisions + length calls < 2 ^ 64
      → IsShown c s.revisions s
      → Shows map_projection
          (receive_events map_projection (publish_all s calls).sent c)
          (publish_all s calls).rows
          (publish_all s calls).revisions
  unfolding publish_all
  publish_all-IsShown c s [] l h = h.shown
  publish_all-IsShown c s (call ∷ calls) l h =
      let one = publish-IsShown c s call (omega arith) h in
      publish_all-IsShown c (publish s call) calls (omega (arith, one.advanced))
        (record { cache = one.cache; shown = one.shown; advanced = omega arith })

  -- On a selection whose rows are kept once under their own identities, and whose counter does not
  -- wrap: a client that joins, whatever its list was before, and applies the events in the order in
  -- which they are sent, has a list at every time that holds for each object the wire form of the row
  -- in the cache, and nothing for an object that is not cached, at a revision below the next one.
  pub client-Shows :
      (c : ResourceListState W) (s : SelectionPublisher O P) (now : String)
      (calls : List (PublisherCall O P))
      → IsCache map_projection s.rows
      → s.revisions + 1 + length calls < 2 ^ 64
      → let t = publish_all (publish_current now s) calls in
        Shows map_projection (receive_events map_projection t.sent c) t.rows t.revisions
  client-Shows c s now calls h l =
      let one = joined-IsShown c s now (omega arith) h in
      publish_all-IsShown c (publish_current now s) calls (omega (arith, one.advanced))
        (record { cache = one.cache; shown = one.shown; advanced = omega arith })
