-- ===== src/Watch/Revisions.antt =====
-- The order of the revisions of a selection: crates/k10s-backend/src/runtime/supervisor.rs.
use k10s.Base.{
  ℕ, ◌+◌, ◌%◌, ◌^◌, ◌≤◌, ◌<◌, ◌≡◌, refl, not, List, [], ◌∷◌, ◌++◌, arith, length, if_cases,
}
use k10s.Watch.Rows.{matches}
use k10s.Watch.Publisher.{
  BackendEvent, snapshot, changed, gone, upsert, delete, SelectionPublisher, next, record_from_row,
  send, snapshot_of, replace, apply_list, apply_update, publish_current, PublisherCall, lists,
  updates, joins, relists, draws, publish, publish_all, mark_stale,
}

module _ {O P : Type 0} where
  abbrev pub revision_of : BackendEvent O P → ℕ
  revision_of (snapshot listing) = listing.revision
  revision_of (changed r) = r.revision
  revision_of (gone reference revision) = revision

  -- The revisions rise strictly, from `lo` on and below `hi`.
  abbrev pub Ordered : ℕ → ℕ → List (BackendEvent O P) → Type 0
  Ordered lo hi [] = lo ≤ hi
  Ordered lo hi (e ∷ es) = (lo ≤ revision_of e) × Ordered (revision_of e + 1) hi es

  Ordered-raise :
      (lo hi up : ℕ) (es : List (BackendEvent O P)) → hi ≤ up → Ordered lo hi es → Ordered lo up es
  Ordered-raise lo hi up [] l h = omega arith
  Ordered-raise lo hi up (e ∷ es) l h = (h.0, Ordered-raise (revision_of e + 1) hi up es l h.1)

  Ordered-append :
      (lo hi : ℕ) (es : List (BackendEvent O P)) (e : BackendEvent O P)
      → revision_of e ≡ hi
      → Ordered lo hi es
      → Ordered lo (hi + 1) (es ++ e ∷ [])
  Ordered-append lo hi [] e l h = (omega arith, omega arith)
  Ordered-append lo hi (x ∷ es) e l h = (h.0, Ordered-append (revision_of x + 1) hi es e l h.1)

  -- The events so far are in order, below the next revision.
  pub record IsOrdered (s t : SelectionPublisher O P) : Type 0 where
    pub ordered : Ordered 0 t.revisions t.sent
    pub advanced : t.revisions ≤ s.revisions + 1

  abbrev pub IsInOrder : SelectionPublisher O P → Type 0
  IsInOrder s = Ordered 0 s.revisions s.sent

  sent-IsOrdered :
      (s t : SelectionPublisher O P) (e : BackendEvent O P)
      → IsInOrder s
      → s.revisions + 1 < 2 ^ 64
      → revision_of e ≡ s.revisions
      → t.sent ≡ s.sent ++ e ∷ []
      → t.revisions ≡ (s.revisions + 1) % 2 ^ 64
      → IsOrdered s t
  sent-IsOrdered s t e h l r f g =
      let up : t.revisions ≡ s.revisions + 1 = omega arith in
      record {
        ordered = rw (f, up) (Ordered-append 0 s.revisions s.sent e r h);
        advanced = omega arith;
      }

  kept-IsOrdered : (s : SelectionPublisher O P) → IsInOrder s → IsOrdered s s
  kept-IsOrdered s h = record { ordered = h; advanced = omega arith }

  publish-IsOrdered :
      (s : SelectionPublisher O P) (c : PublisherCall O P)
      → IsInOrder s
      → s.revisions + 1 < 2 ^ 64
      → IsOrdered s (publish s c)
  unfolding publish apply_list replace apply_update publish_current mark_stale next send snapshot_of
      record_from_row
  publish-IsOrdered s (lists rows now) h l = sent-IsOrdered s _ _ h l refl refl refl
  publish-IsOrdered s (updates (upsert row)) h l =
      if_cases (IsOrdered s) (not (matches s.selector row.reference)) (λ _. kept-IsOrdered s h)
        (λ _. sent-IsOrdered s _ _ h l refl refl refl)
  publish-IsOrdered s (updates (delete reference)) h l =
      if_cases (IsOrdered s) (not (matches s.selector reference)) (λ _. kept-IsOrdered s h)
        (λ _. sent-IsOrdered s _ _ h l refl refl refl)
  publish-IsOrdered s (joins now) h l = sent-IsOrdered s _ _ h l refl refl refl
  publish-IsOrdered s relists h l = record { ordered = h; advanced = omega arith }
  publish-IsOrdered s draws h l =
      let up : (s.revisions + 1) % 2 ^ 64 ≡ s.revisions + 1 = omega arith in
      record {
        ordered = rw up (Ordered-raise 0 s.revisions (s.revisions + 1) s.sent (omega arith) h);
        advanced = omega arith;
      }

  -- As long as the counter does not wrap, the revisions of the events rise strictly in the order in
  -- which they are sent, whatever is published and whatever other selections draw in between.
  pub publish_all-IsInOrder :
      (s : SelectionPublisher O P) (cs : List (PublisherCall O P))
      → IsInOrder s
      → s.revisions + length cs < 2 ^ 64
      → IsInOrder (publish_all s cs)
  unfolding publish_all
  publish_all-IsInOrder s [] h l = h
  publish_all-IsInOrder s (c ∷ cs) h l =
      let one = publish-IsOrdered s c h (omega arith) in
      publish_all-IsInOrder (publish s c) cs one.ordered (omega (arith, one.advanced))
