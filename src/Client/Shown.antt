-- ===== src/Client/Shown.antt =====
-- What the list of a client shows of the cache of a selection:
-- crates/k10s-ui/src/client/state.rs and crates/k10s-backend/src/runtime/supervisor.rs.
use k10s.Base.{
  ℕ, ◌+◌, ◌<◌, ◌≡◌, refl, inl, inr, Bool, true, false, Option, none, some, List, [], ◌∷◌, ◌++◌,
  arith, leb, map, All, or_else, if◌then◌else◌, Bool-cases,
}
use k10s.Tickets.Store.{ResourceRef}
use k10s.Watch.Rows.{
  same_ref, same_ref_iff, lookup_ref, insert_ref, remove_ref, lookup_ref-insert_ref,
  lookup_ref-remove_ref,
}
use k10s.Watch.Publisher.{
  WatchRow, ResourceRecord, BackendEvent, snapshot, changed, gone, record_from_row, stamped, values,
}
use k10s.Watch.Mirror.{insert_ref-IsKeyed}
use k10s.Client.Rows.{ResourceListRow, map_row, map_identity, changed_delta, gone_delta, map_option}
use k10s.Client.Lists.{ResourceListState, collect, apply_snapshot, apply_changed, apply_gone}

-- The identities are distinct.
abbrev pub IsRefMap : {R : Type 0} → List (ResourceRef × R) → Type 0
IsRefMap [] = Unit
IsRefMap ((k, r) ∷ m) = (lookup_ref k m ≡ none) × IsRefMap m

module _ {R : Type 0} where
  insert_ref-IsRefMap :
      (k : ResourceRef) (r : R) (m : List (ResourceRef × R))
      → IsRefMap m
      → IsRefMap (insert_ref k r m)
  unfolding insert_ref lookup_ref
  insert_ref-IsRefMap k r [] h = (refl, tt)
  insert_ref-IsRefMap k r ((j, q) ∷ m) h = elim (Bool-cases (same_ref j k)) [
    | inl c ↦ rw c h
    | inr c ↦ rw c (
      ground (arith, lookup_ref-insert_ref k j r m, same_ref_iff k j, same_ref_iff j k),
      insert_ref-IsRefMap k r m h.1,
    )
  ]

  pub remove_ref-IsRefMap :
      (k : ResourceRef) (m : List (ResourceRef × R)) → IsRefMap m → IsRefMap (remove_ref k m)
  unfolding remove_ref
  remove_ref-IsRefMap k [] h = tt
  remove_ref-IsRefMap k ((j, q) ∷ m) h = elim (Bool-cases (same_ref j k)) [
    | inl c ↦ rw c (remove_ref-IsRefMap k m h.1)
    | inr c ↦ rw c (ground (arith, lookup_ref-remove_ref k j m), remove_ref-IsRefMap k m h.1)
  ]

map_option_if :
    {A B : Type 0} (f : A → B) (b : Bool) (x y : Option A)
    → (if b then map_option f x else map_option f y) ≡ map_option f (if b then x else y)
map_option_if f true x y = refl
map_option_if f false x y = refl

or_else-none : {A : Type 0} (o : Option A) → or_else o none ≡ o
or_else-none none = refl
or_else-none (some a) = refl

module _ {O P W : Type 0} (map_projection : P → W) where
  -- Each row is kept once, under its own identity.
  abbrev pub IsCache : List (ResourceRef × ResourceRecord O P) → Type 0
  IsCache m = IsRefMap m × All (λ e. e.1.reference ≡ e.0) m

  -- `apply_delta` and the snapshot, for an event of the backend.
  unfoldable pub receive_event : BackendEvent O P → ResourceListState W → ResourceListState W
  receive_event (snapshot listing) c =
      apply_snapshot listing.revision (map (map_row map_projection) listing.rows) c
  receive_event (changed r) c =
      let delta = changed_delta map_projection r in apply_changed delta.identity delta.row c
  receive_event (gone reference revision) c =
      let delta = gone_delta reference revision in apply_gone delta.identity delta.revision c

  unfoldable pub receive_events :
      List (BackendEvent O P) → ResourceListState W → ResourceListState W
  receive_events [] c = c
  receive_events (e ∷ es) c = receive_events es (receive_event e c)

  pub receive_events-append :
      (es : List (BackendEvent O P)) (e : BackendEvent O P) (c : ResourceListState W)
      → receive_events (es ++ e ∷ []) c ≡ receive_event e (receive_events es c)
  unfolding receive_events
  receive_events-append [] e c = refl
  receive_events-append (x ∷ es) e c = receive_events-append es e (receive_event x c)

  -- The list has the wire form of the cached row of each object, at a revision that was handed out.
  pub record Shows (c : ResourceListState W) (rows : List (ResourceRef × ResourceRecord O P))
      (upcoming : ℕ) : Type 0 where
    pub at : ℕ
    pub based : c.revision ≡ some at
    pub before : at < upcoming
    pub shows :
        (k : ResourceRef)
        → lookup_ref k c.rows ≡ map_option (map_row map_projection) (lookup_ref k rows)

  collect-lookup :
      (k : ResourceRef) (m : List (ResourceRef × ResourceRecord O P))
      (out : List (ResourceRef × ResourceListRow W))
      → IsCache m
      → lookup_ref k (collect (map (map_row map_projection) (values m)) out)
        ≡ or_else (map_option (map_row map_projection) (lookup_ref k m)) (lookup_ref k out)
  unfolding collect lookup_ref map_row
  collect-lookup k [] out h = refl
  collect-lookup k ((j, r) ∷ m) out h =
      let rest =
        collect-lookup k m (insert_ref (map_identity r.reference) (map_row map_projection r) out)
          (h.0.1, h.1.1) in
      let put = lookup_ref-insert_ref (map_identity r.reference) k (map_row map_projection r) out in
      ground (arith, rest, put, h.0.0, h.1.0, same_ref_iff j k, same_ref_iff r.reference k)

  pub snapshot-Shows :
      (revision upcoming : ℕ) (m : List (ResourceRef × ResourceRecord O P))
      (c : ResourceListState W)
      → IsCache m
      → revision < upcoming
      → Shows (apply_snapshot revision (map (map_row map_projection) (values m)) c) m upcoming
  unfolding apply_snapshot lookup_ref
  snapshot-Shows revision upcoming m c h l = record {
    at = revision;
    based = refl;
    before = l;
    shows = λ k.
        rw (collect-lookup k m [] h)
          (or_else-none (map_option (map_row map_projection) (lookup_ref k m)));
  }

  pub changed-Shows :
      (r : ResourceRecord O P) (m : List (ResourceRef × ResourceRecord O P))
      (c : ResourceListState W) (upcoming : ℕ)
      → r.revision ≡ upcoming
      → Shows c m upcoming
      → Shows (receive_event (changed r) c) (insert_ref r.reference r m) (upcoming + 1)
  unfolding receive_event apply_changed changed_delta
  changed-Shows r m c upcoming e h =
      let newer : leb r.revision h.at ≡ false = ground (arith, h.before) in
      let b = h.based in
      rw (b, newer)
        (record {
          at = r.revision;
          based = refl;
          before = omega arith;
          shows = λ k.
              let before = h.shows k in
              rw
                (
                  lookup_ref-insert_ref r.reference k (map_row map_projection r) c.rows,
                  lookup_ref-insert_ref r.reference k r m,
                  before,
                )
                (map_option_if (map_row map_projection) (same_ref r.reference k) (some r)
                  (lookup_ref k m));
        })

  pub gone-Shows :
      (reference : ResourceRef) (m : List (ResourceRef × ResourceRecord O P))
      (c : ResourceListState W) (upcoming : ℕ)
      → Shows c m upcoming
      → Shows (receive_event (gone reference upcoming) c) (remove_ref reference m) (upcoming + 1)
  unfolding receive_event apply_gone gone_delta
  gone-Shows reference m c upcoming h =
      let newer : leb upcoming h.at ≡ false = ground (arith, h.before) in
      let b = h.based in
      rw (b, newer)
        (record {
          at = upcoming;
          based = refl;
          before = omega arith;
          shows = λ k.
              let before = h.shows k in
              rw
                (
                  lookup_ref-remove_ref reference k c.rows,
                  lookup_ref-remove_ref reference k m,
                  before,
                )
                (map_option_if (map_row map_projection) (same_ref reference k) none
                  (lookup_ref k m));
        })

  pub insert_ref-IsCache :
      (k : ResourceRef) (r : ResourceRecord O P) (m : List (ResourceRef × ResourceRecord O P))
      → r.reference ≡ k
      → IsCache m
      → IsCache (insert_ref k r m)
  insert_ref-IsCache k r m e h = (insert_ref-IsRefMap k r m h.0, insert_ref-IsKeyed k r m e h.1)

  pub stamped-IsCache :
      (revision : ℕ) (rows : List (WatchRow O P)) (m : List (ResourceRef × ResourceRecord O P))
      → IsCache m
      → IsCache (stamped revision rows m)
  unfolding stamped record_from_row
  stamped-IsCache revision [] m h = h
  stamped-IsCache revision (row ∷ rows) m h =
      stamped-IsCache revision rows _
        (insert_ref-IsCache row.reference (record_from_row row revision) m refl h)
