-- ===== src/Watch/Mirror.antt =====
-- A receiver that applies the events of a selection sees the rows of its cache:
-- crates/k10s-backend/src/runtime/supervisor.rs and runtime/cache.rs.
use k10s.Base.{
  ℕ, ◌≡◌, ◌∙◌, refl, sym, inl, inr, String, not, Option, none, some, List, [], ◌∷◌, ◌++◌, retain,
  find, All, if◌then◌else◌, if_cases, Bool-cases,
}
use k10s.Tickets.Store.{ResourceRef}
use k10s.Watch.Rows.{
  matches, same_ref, same_ref_iff, lookup_ref, insert_ref, remove_ref, lookup_ref-insert_ref,
  lookup_ref-remove_ref,
}
use k10s.Watch.Publisher.{
  WatchRow, ResourceRecord, BackendEvent, snapshot, changed, gone, upsert, delete,
  SelectionPublisher, next, record_from_row, stamped, values, send, snapshot_of, replace,
  apply_list, apply_update, publish_current, PublisherCall, lists, updates, joins, relists, draws,
  publish, publish_all, mark_stale,
}

-- What a receiver knows of each object.
abbrev pub View : Type 0 → Type 0 → Type 0
View O P = ResourceRef → Option (ResourceRecord O P)

module _ {O P : Type 0} where
  abbrev pub listed_row : List (ResourceRecord O P) → View O P
  listed_row rows k = find (λ r. same_ref r.reference k) rows

  abbrev pub apply_event : View O P → BackendEvent O P → View O P
  apply_event v (snapshot listing) = listed_row listing.rows
  apply_event v (changed r) = λ k. if same_ref r.reference k then some r else v k
  apply_event v (gone reference revision) = λ k. if same_ref reference k then none else v k

  abbrev pub apply_events : View O P → List (BackendEvent O P) → View O P
  apply_events v [] = v
  apply_events v (e ∷ es) = apply_events (apply_event v e) es

  apply_events-append :
      (v : View O P) (es : List (BackendEvent O P)) (e : BackendEvent O P)
      → apply_events v (es ++ e ∷ []) ≡ apply_event (apply_events v es) e
  apply_events-append v [] e = refl
  apply_events-append v (x ∷ es) e = apply_events-append (apply_event v x) es e

  -- Each row is kept under its own identity.
  abbrev pub IsKeyed : List (ResourceRef × ResourceRecord O P) → Type 0
  IsKeyed = All (λ e. e.1.reference ≡ e.0)

  pub insert_ref-IsKeyed :
      (k : ResourceRef) (r : ResourceRecord O P) (m : List (ResourceRef × ResourceRecord O P))
      → r.reference ≡ k
      → IsKeyed m
      → IsKeyed (insert_ref k r m)
  unfolding insert_ref
  insert_ref-IsKeyed k r [] e h = (e, tt)
  insert_ref-IsKeyed k r ((j, q) ∷ m) e h = elim (Bool-cases (same_ref j k)) [
    | inl c ↦ rw c (e ∙ sym ((same_ref_iff j k).0 c), h.1)
    | inr c ↦ rw c (h.0, insert_ref-IsKeyed k r m e h.1)
  ]

  pub remove_ref-IsKeyed :
      (k : ResourceRef) (m : List (ResourceRef × ResourceRecord O P))
      → IsKeyed m
      → IsKeyed (remove_ref k m)
  unfolding remove_ref
  remove_ref-IsKeyed k [] h = tt
  remove_ref-IsKeyed k ((j, q) ∷ m) h = elim (Bool-cases (same_ref j k)) [
    | inl c ↦ rw c (remove_ref-IsKeyed k m h.1)
    | inr c ↦ rw c (h.0, remove_ref-IsKeyed k m h.1)
  ]

  stamped-IsKeyed :
      (revision : ℕ) (rows : List (WatchRow O P)) (m : List (ResourceRef × ResourceRecord O P))
      → IsKeyed m
      → IsKeyed (stamped revision rows m)
  unfolding stamped record_from_row
  stamped-IsKeyed revision [] m h = h
  stamped-IsKeyed revision (row ∷ rows) m h =
      stamped-IsKeyed revision rows _
        (insert_ref-IsKeyed row.reference (record_from_row row revision) m refl h)

  -- The rows of a snapshot are found by their identities.
  listed_row-values :
      (k : ResourceRef) (m : List (ResourceRef × ResourceRecord O P))
      → IsKeyed m
      → listed_row (values m) k ≡ lookup_ref k m
  unfolding lookup_ref
  listed_row-values k [] h = refl
  listed_row-values k ((j, r) ∷ m) h = rw h.0 (let rest = listed_row-values k m h.1 in rw rest refl)

  -- The receiver, which began with `v`, knows the cached row of each object.
  pub record IsMirror (v : View O P) (s : SelectionPublisher O P) : Type 0 where
    pub keyed : IsKeyed s.rows
    pub mirrors : (k : ResourceRef) → apply_events v s.sent k ≡ lookup_ref k s.rows

  snapshot_of-IsMirror :
      (v : View O P) (t : SelectionPublisher O P) (revision : ℕ) (now : String)
      → IsKeyed t.rows
      → IsMirror v (send (snapshot_of revision now t) t)
  unfolding send snapshot_of
  snapshot_of-IsMirror v t revision now h = record {
    keyed = h;
    mirrors = λ k.
        rw (apply_events-append v t.sent (snapshot_of revision now t))
          (listed_row-values k t.rows h);
  }

  joined :
      (v : View O P) (s : SelectionPublisher O P) (now : String)
      → IsKeyed s.rows
      → IsMirror v (publish_current now s)
  unfolding publish_current next snapshot_of send
  joined v s now h = record {
    keyed = h;
    mirrors = λ k.
        rw (apply_events-append v s.sent (snapshot_of s.revisions now s))
          (listed_row-values k s.rows h);
  }

  upsert-IsMirror :
      (v : View O P) (row : WatchRow O P) (s : SelectionPublisher O P)
      → IsMirror v s
      → IsMirror v (apply_update (upsert row) s)
  unfolding apply_update send next record_from_row
  upsert-IsMirror v row s h =
      let r = record_from_row row s.revisions in
      if_cases (IsMirror v) (not (matches s.selector row.reference)) (λ _. h)
        λ _. record {
          keyed = insert_ref-IsKeyed row.reference r s.rows refl h.keyed;
          mirrors = λ k. rw (apply_events-append v s.sent (changed r)) (
              let before = h.mirrors k in
              rw (before, lookup_ref-insert_ref row.reference k r s.rows) refl);
        }

  delete-IsMirror :
      (v : View O P) (reference : ResourceRef) (s : SelectionPublisher O P)
      → IsMirror v s
      → IsMirror v (apply_update (delete reference) s)
  unfolding apply_update send next
  delete-IsMirror v reference s h =
      if_cases (IsMirror v) (not (matches s.selector reference)) (λ _. h)
        λ _. record {
          keyed = remove_ref-IsKeyed reference s.rows h.keyed;
          mirrors = λ k. rw (apply_events-append v s.sent (gone reference s.revisions)) (
              let before = h.mirrors k in
              rw (before, lookup_ref-remove_ref reference k s.rows) refl);
        }

  publish-IsMirror :
      (v : View O P) (s : SelectionPublisher O P) (c : PublisherCall O P)
      → IsMirror v s
      → IsMirror v (publish s c)
  unfolding publish apply_list replace publish_current mark_stale next
  publish-IsMirror v s (lists rows now) h =
      snapshot_of-IsMirror v (replace (retain (λ row. matches s.selector row.reference) rows) s)
        s.revisions now (stamped-IsKeyed s.revisions _ [] tt)
  publish-IsMirror v s (updates (upsert row)) h = upsert-IsMirror v row s h
  publish-IsMirror v s (updates (delete reference)) h = delete-IsMirror v reference s h
  publish-IsMirror v s (joins now) h = joined v s now h.keyed
  publish-IsMirror v s relists h = record { keyed = h.keyed; mirrors = h.mirrors }
  publish-IsMirror v s draws h = record { keyed = h.keyed; mirrors = h.mirrors }

  publish_all-IsMirror :
      (v : View O P) (s : SelectionPublisher O P) (cs : List (PublisherCall O P))
      → IsMirror v s
      → IsMirror v (publish_all s cs)
  unfolding publish_all
  publish_all-IsMirror v s [] h = h
  publish_all-IsMirror v s (c ∷ cs) h =
      publish_all-IsMirror v (publish s c) cs (publish-IsMirror v s c h)

  -- On a selection whose rows are kept under their own identities: from the snapshot that it joins
  -- with, whatever it knew before, a receiver that applies the events in their order knows at every
  -- time exactly the rows of the cache.
  pub joiner-IsMirror :
      (v : View O P) (s : SelectionPublisher O P) (now : String) (cs : List (PublisherCall O P))
      → IsKeyed s.rows
      → IsMirror v (publish_all (publish_current now s) cs)
  joiner-IsMirror v s now cs h =
      publish_all-IsMirror v (publish_current now s) cs (joined v s now h)
