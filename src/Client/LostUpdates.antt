-- ===== src/Client/LostUpdates.antt =====
-- Deltas from the subscription of crates/k10s-server/src/control.rs, through its queue, to the list of
-- crates/k10s-ui/src/client/state.rs.
use k10s.Base.{
  ℕ, ◌+◌, ◌-◌, ◌≤◌, ◌<◌, ◌≡◌, ◌≢◌, refl, ap, String, true, false, none, some, List, [], ◌∷◌, arith,
  map, leb, inl, inr, Bool-cases,
}
use k10s.Tickets.Store.{ResourceRef}
use k10s.Watch.Rows.{
  same_ref, same_ref_iff, lookup_ref, insert_ref, remove_ref, lookup_ref-insert_ref,
  lookup_ref-remove_ref,
}
use k10s.Watch.Publisher.{ResourceRecord}
use k10s.Outbound.Queue.{SessionProtocol, Entry}
use k10s.Outbound.Session.{Call, sends_delta, writes, run, max_u64}
use k10s.Client.Rows.{coalescing_key, map_row, changed_delta, gone_delta}
use k10s.Client.Lists.{
  ResourceListState, ListDelta, changed, gone, apply_delta, apply_deltas, apply_changed, apply_gone,
}
use k10s.Client.Coalescing.{idle_session, whole, coalesced_first, coalesced_only}

-- A delta as it is sent: its sequence, and what it says.
abbrev pub DeltaFrame : Type 0 → Type 0
DeltaFrame W = ℕ × ListDelta W

module _ {O P W : Type 0} (map_projection : P → W) where
  -- The two arms of the subscription that call `enqueue_delta`.
  unfoldable pub forward_changed : String → ResourceRecord O P → Call (DeltaFrame W)
  forward_changed subscription r =
      sends_delta subscription (coalescing_key r.reference)
        (λ n. (n, changed (changed_delta map_projection r)))

unfoldable pub forward_gone : {W : Type 0} → String → ResourceRef → ℕ → Call (DeltaFrame W)
forward_gone subscription reference revision =
    sends_delta subscription (coalescing_key reference)
      (λ n. (n, gone (gone_delta reference revision)))

module _ {W : Type 0} where
  -- What the client makes of the frames that were sent.
  abbrev pub receive_sent : List (Entry (DeltaFrame W)) → ResourceListState W → ResourceListState W
  receive_sent sent = apply_deltas (map (λ e. e.message.1) sent)

module _ {O P W : Type 0} (map_projection : P → W) where
  -- A delta that is newer than the list is written to it, and one that is older is not.
  applied_changed :
      (r : ResourceRecord O P) (list : ResourceListState W) (at : ℕ)
      → list.revision ≡ some at
      → at < r.revision
      → apply_delta (changed (changed_delta map_projection r)) list ≡ record {
        revision = some r.revision;
        rows = insert_ref r.reference (map_row map_projection r) list.rows;
      }
  unfolding apply_delta apply_changed changed_delta
  applied_changed r list at e l =
      let newer : leb r.revision at ≡ false = ground arith in rw (e, newer) refl

  stale_changed :
      (r : ResourceRecord O P) (list : ResourceListState W) (at : ℕ)
      → list.revision ≡ some at
      → r.revision ≤ at
      → apply_delta (changed (changed_delta map_projection r)) list ≡ list
  unfolding apply_delta apply_changed changed_delta
  stale_changed r list at e l =
      let older : leb r.revision at ≡ true = ground arith in rw (e, older) refl

applied_gone :
    {W : Type 0} (reference : ResourceRef) (revision : ℕ) (list : ResourceListState W) (at : ℕ)
    → list.revision ≡ some at
    → at < revision
    → apply_delta (gone (gone_delta reference revision)) list
      ≡ record { revision = some revision; rows = remove_ref reference list.rows }
unfolding apply_delta apply_gone gone_delta
applied_gone reference revision list at e l =
    let newer : leb revision at ≡ false = ground arith in rw (e, newer) refl

other_ref : (a b : ResourceRef) → coalescing_key a ≢ coalescing_key b → same_ref a b ≡ false
other_ref a b n = elim (Bool-cases (same_ref a b)) [
  | inl c ↦ absurd (n (ap coalescing_key ((same_ref_iff a b).0 c)))
  | inr c ↦ c
]

module _ {O P W : Type 0} (map_projection : P → W) (list : ResourceListState W) (at : ℕ)
    (base : list.revision ≡ some at) (a b c : ResourceRecord O P)
    (apart : same_ref a.reference b.reference ≡ false) (same : c.reference ≡ a.reference)
    (new : at < a.revision) (then_b : a.revision < b.revision)
    (then_c : b.revision < c.revision) where
  apart_too : same_ref c.reference b.reference ≡ false
  apart_too = rw same apart

  loses :
      lookup_ref b.reference
        (apply_delta
          (changed (changed_delta map_projection b))
          (apply_delta (changed (changed_delta map_projection c)) list)).rows
      ≡ lookup_ref b.reference list.rows
  loses =
      let one = applied_changed map_projection c list at base (omega arith) in
      let two =
        stale_changed map_projection b (apply_delta (changed (changed_delta map_projection c)) list)
          c.revision (ap (λ l. l.revision) one) (omega arith) in
      rw
        (
          two,
          one,
          lookup_ref-insert_ref c.reference b.reference (map_row map_projection c) list.rows,
          apart_too,
        )
        refl

  keeps :
      lookup_ref b.reference
        (apply_delta (changed (changed_delta map_projection c)) (
          apply_delta
            (changed (changed_delta map_projection b))
            (apply_delta (changed (changed_delta map_projection a)) list))).rows
      ≡ some (map_row map_projection b)
  keeps =
      let one : ResourceListState W = apply_delta (changed (changed_delta map_projection a)) list in
      let two : ResourceListState W = apply_delta (changed (changed_delta map_projection b)) one in
      let p = applied_changed map_projection a list at base new in
      let q = applied_changed map_projection b one a.revision (ap (λ l. l.revision) p) then_b in
      let r = applied_changed map_projection c two b.revision (ap (λ l. l.revision) q) then_c in
      rw
        (
          r,
          lookup_ref-insert_ref c.reference b.reference (map_row map_projection c) two.rows,
          apart_too,
          q,
          lookup_ref-insert_ref b.reference b.reference (map_row map_projection b) one.rows,
          (same_ref_iff b.reference b.reference).1 refl,
        )
        refl

module _ {O P W : Type 0} (map_projection : P → W) (subscription : String) (capacity reserve : ℕ)
    (current : SessionProtocol) (counter : ℕ) (list : ResourceListState W) (at : ℕ)
    (base : list.revision ≡ some at) (room : 1 < capacity - reserve)
    (left : counter + 2 ≤ max_u64) where
  -- Three changes in the order of their revisions, the first and the last of one object and the second
  -- of another, are all queued before the writer takes any: what is sent makes the client drop the
  -- change of the second object, which it would have had from the three changes in their order.
  pub coalescing_loses_update :
      (a b c : ResourceRecord O P)
      → coalescing_key a.reference ≢ coalescing_key b.reference
      → c.reference ≡ a.reference
      → at < a.revision
      → a.revision < b.revision
      → b.revision < c.revision
      → let t = run whole (idle_session capacity reserve current counter) (
          forward_changed map_projection subscription a
          ∷ forward_changed map_projection subscription b
          ∷ forward_changed map_projection subscription c
          ∷ writes true
          ∷ writes true
          ∷ []) in
        (lookup_ref b.reference (receive_sent t.sent list).rows ≡ lookup_ref b.reference list.rows)
        × (lookup_ref b.reference
              (apply_deltas
                (changed (changed_delta map_projection a)
                  ∷ changed (changed_delta map_projection b)
                  ∷ changed (changed_delta map_projection c)
                  ∷ [])
                list).rows
            ≡ some (map_row map_projection b))
  unfolding forward_changed apply_deltas
  coalescing_loses_update a b c differ same l m n =
      let keys : coalescing_key c.reference ≡ coalescing_key a.reference = ap coalescing_key same in
      let apart : same_ref a.reference b.reference ≡ false =
        other_ref a.reference b.reference differ in
      let sent =
        coalesced_first {M = DeltaFrame W} capacity reserve current counter subscription
          (coalescing_key a.reference) (coalescing_key b.reference)
          (λ n. (n, changed (changed_delta map_projection a)))
          (λ n. (n, changed (changed_delta map_projection b)))
          (λ n. (n, changed (changed_delta map_projection c))) room left differ in
      (
        rw (keys, sent) (loses map_projection list at base a b c apart same l m n),
        keeps map_projection list at base a b c apart same l m n,
      )

  -- The removal of an object and the change of another one with its key, as of one that was deleted and
  -- created again under its name, are both queued before the writer takes any: what is sent makes the
  -- client keep the row of the removed object, which the two in their order take away.
  pub coalescing_keeps_removed :
      (old : ResourceRef) (removal : ℕ) (c : ResourceRecord O P)
      → coalescing_key old ≡ coalescing_key c.reference
      → old ≢ c.reference
      → at < removal
      → removal < c.revision
      → let t = run whole (idle_session capacity reserve current counter) (
          forward_gone subscription old removal
          ∷ forward_changed map_projection subscription c
          ∷ writes true
          ∷ []) in
        (lookup_ref old (receive_sent t.sent list).rows ≡ lookup_ref old list.rows)
        × (lookup_ref old
              (apply_deltas
                (gone (gone_delta old removal) ∷ changed (changed_delta map_projection c) ∷ [])
                list).rows
            ≡ none)
  unfolding forward_changed forward_gone apply_deltas
  coalescing_keeps_removed old removal c keys other l m =
      let apart : same_ref c.reference old ≡ false = ground (arith, same_ref_iff c.reference old) in
      let sent =
        coalesced_only {M = DeltaFrame W} capacity reserve current counter subscription
          (coalescing_key c.reference) (λ n. (n, gone (gone_delta old removal)))
          (λ n. (n, changed (changed_delta map_projection c))) room left in
      let direct = applied_changed map_projection c list at base (omega arith) in
      let taken : ResourceListState W = apply_delta (gone (gone_delta old removal)) list in
      let p = applied_gone old removal list at base l in
      let q = applied_changed map_projection c taken removal (ap (λ l. l.revision) p) m in
      (
        rw
            (
              keys,
              sent,
              direct,
              lookup_ref-insert_ref c.reference old (map_row map_projection c) list.rows,
              apart,
            )
            refl,
        rw
            (
              q,
              lookup_ref-insert_ref c.reference old (map_row map_projection c) taken.rows,
              apart,
              p,
              lookup_ref-remove_ref old old list.rows,
              (same_ref_iff old old).1 refl,
            )
            refl,
      )
