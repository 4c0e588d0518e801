-- ===== src/Client/Coalescing.antt =====
-- What the coalescing of deltas in crates/k10s-server/src/outbound.rs and control.rs does to the list
-- that crates/k10s-ui/src/client/state.rs keeps.
use k10s.Base.{
  ℕ, ◌+◌, ◌-◌, ◌≤◌, ◌<◌, ◌≡◌, ◌≢◌, refl, ◌∙◌, String, true, false, some, List, [], ◌∷◌, arith, leb,
  ◌==◌, string_eq, ok,
}
use text.Mathlib.TextEquality.{eq_iff}
use k10s.Outbound.Queue.{
  SessionProtocol, Entry, resource, same_identity, p2, has_identity, update_first, is_resource,
  remove_at, next_index, position, min_sequence, unsequenced_p0, unsequenced_p1,
}
use k10s.Outbound.Scheduler.{enqueue_p2_sequenced, recv, partition_full, replaced}
use k10s.Outbound.Session.{
  Session, sends_delta, writes, step, run, max_u64, build_fresh, allocate_sequence,
}

same_resource :
    (subscription r q : String)
    → same_identity (resource (some subscription) r) (resource (some subscription) q)
      ≡ string_eq.beq r q
unfolding same_identity
same_resource subscription r q = ground (arith, eq_iff subscription subscription)

same_text : (r : String) → string_eq.beq r r ≡ true
same_text r = (eq_iff r r).1 refl

other_text : (r q : String) → r ≢ q → string_eq.beq r q ≡ false
other_text r q n = ground (arith, eq_iff r q)

module _ {M : Type 0} where
  -- A session with an open queue that is empty.
  abbrev pub idle_session : ℕ → ℕ → SessionProtocol → ℕ → Session M
  idle_session capacity reliable_reserve current counter = record {
    scheduler = record {
      capacity = capacity;
      reliable_reserve = reliable_reserve;
      state = record { queue = []; closed = false };
      protocol = current;
    };
    counter = counter;
    taken = [];
    sent = [];
    leased = true;
    writing = true;
  }

  abbrev pub slot : String → String → ℕ → M → Entry M
  slot subscription r n message = record {
    priority = p2;
    message = message;
    p2_identity = some (resource (some subscription) r);
    sequence = some n;
  }

  abbrev pub queue_session : ℕ → ℕ → SessionProtocol → ℕ → List (Entry M) → Session M
  queue_session capacity reserve current counter q = record {
    scheduler = record {
      capacity = capacity;
      reliable_reserve = reserve;
      state = record { queue = q; closed = false };
      protocol = current;
    };
    counter = counter;
    taken = [];
    sent = [];
    leased = true;
    writing = true;
  }

  abbrev pub whole : SessionProtocol → M → M
  whole current message = message

  -- The next sequence is handed out.
  fresh_sequence :
      (frame : ℕ → M) (n : ℕ)
      → n < max_u64
      → build_fresh frame n ≡ (ok (n + 1, frame (n + 1)), n + 1)
  unfolding build_fresh allocate_sequence
  fresh_sequence frame n l = let more : (n == max_u64) ≡ false = ground arith in rw more refl

  module _ (capacity reserve : ℕ) (current : SessionProtocol) (counter : ℕ)
      (subscription ka : String) (a c : ℕ → M) (room : 1 < capacity - reserve)
      (left : counter + 2 ≤ max_u64) where
    sends_first :
        step whole (idle_session capacity reserve current counter) (sends_delta subscription ka a)
        ≡ queue_session capacity reserve current
            (counter + 1)
            (slot subscription ka (counter + 1) (a (counter + 1)) ∷ [])
    unfolding step enqueue_p2_sequenced partition_full
    sends_first =
        let some_room : (0 == capacity) ≡ false = ground arith in
        let some_place : leb (capacity - reserve) 0 ≡ false = ground arith in
        rw (some_room, some_place, fresh_sequence a counter (omega arith)) refl

    replaces_only :
        step whole
          (queue_session capacity reserve current
            (counter + 1)
            (slot subscription ka (counter + 1) (a (counter + 1)) ∷ []))
          (sends_delta subscription ka c)
        ≡ queue_session capacity reserve current
            (counter + 1)
            (slot subscription ka (counter + 1) (c (counter + 1)) ∷ [])
    unfolding step enqueue_p2_sequenced partition_full has_identity update_first
    replaces_only =
        let same = same_resource subscription ka ka ∙ same_text ka in
        rw same (rw (same, replaced) refl)

    writes_only :
        run whole
          (queue_session capacity reserve current
            (counter + 1)
            (slot subscription ka (counter + 1) (c (counter + 1)) ∷ []))
          (writes true ∷ [])
        ≡ record (queue_session capacity reserve current (counter + 1) []) {
          taken = slot subscription ka (counter + 1) (c (counter + 1)) ∷ [];
          sent = slot subscription ka (counter + 1) (c (counter + 1)) ∷ [];
        }
    unfolding run step recv next_index position min_sequence unsequenced_p0 unsequenced_p1 remove_at
    writes_only = refl

    -- Of two deltas with one key in the queue, only the second goes out.
    pub coalesced_only :
        run whole
          (idle_session capacity reserve current counter)
          (sends_delta subscription ka a ∷ sends_delta subscription ka c ∷ writes true ∷ [])
        ≡ record (queue_session capacity reserve current (counter + 1) []) {
          taken = slot subscription ka (counter + 1) (c (counter + 1)) ∷ [];
          sent = slot subscription ka (counter + 1) (c (counter + 1)) ∷ [];
        }
    unfolding run
    coalesced_only = rw (sends_first, replaces_only) writes_only

  module _ (capacity reserve : ℕ) (current : SessionProtocol) (counter : ℕ)
      (subscription ka kb : String) (a b c : ℕ → M) (room : 1 < capacity - reserve)
      (left : counter + 2 ≤ max_u64) (differ : ka ≢ kb) where
    sends_second :
        step whole
          (queue_session capacity reserve current
            (counter + 1)
            (slot subscription ka (counter + 1) (a (counter + 1)) ∷ []))
          (sends_delta subscription kb b)
        ≡ queue_session capacity reserve current (counter + 2) (
            slot subscription ka (counter + 1) (a (counter + 1))
            ∷ slot subscription kb (counter + 2) (b (counter + 2))
            ∷ [])
    unfolding step enqueue_p2_sequenced partition_full has_identity is_resource
    sends_second =
        let some_room : (1 == capacity) ≡ false = ground arith in
        let some_place : leb (capacity - reserve) 1 ≡ false = ground arith in
        let two : counter + 1 + 1 ≡ counter + 2 = omega arith in
        rw
          (
            same_resource subscription ka kb,
            other_text ka kb differ,
            some_room,
            some_place,
            fresh_sequence b (counter + 1) (omega arith),
            two,
          )
          refl

    replaces_first :
        step whole
          (queue_session capacity reserve current (counter + 2) (
            slot subscription ka (counter + 1) (a (counter + 1))
            ∷ slot subscription kb (counter + 2) (b (counter + 2))
            ∷ []))
          (sends_delta subscription ka c)
        ≡ queue_session capacity reserve current (counter + 2) (
            slot subscription ka (counter + 1) (c (counter + 1))
            ∷ slot subscription kb (counter + 2) (b (counter + 2))
            ∷ [])
    unfolding step enqueue_p2_sequenced partition_full has_identity update_first
    replaces_first =
        let same = same_resource subscription ka ka ∙ same_text ka in
        rw same (rw (same, replaced) refl)

    writes_both :
        run whole
          (queue_session capacity reserve current (counter + 2) (
            slot subscription ka (counter + 1) (c (counter + 1))
            ∷ slot subscription kb (counter + 2) (b (counter + 2))
            ∷ []))
          (writes true ∷ writes true ∷ [])
        ≡ record (queue_session capacity reserve current (counter + 2) []) {
          taken =
              slot subscription ka (counter + 1) (c (counter + 1))
              ∷ slot subscription kb (counter + 2) (b (counter + 2))
              ∷ [];
          sent =
              slot subscription ka (counter + 1) (c (counter + 1))
              ∷ slot subscription kb (counter + 2) (b (counter + 2))
              ∷ [];
        }
    unfolding run step recv next_index position min_sequence unsequenced_p0 unsequenced_p1 remove_at
    writes_both = let least : leb (counter + 1) (counter + 2) ≡ true = ground arith in rw least refl

    -- A delta that coalesces goes out in the place of the one that it replaces, before the delta of
    -- another object that was sent after that one and before it.
    pub coalesced_first :
        run whole (idle_session capacity reserve current counter) (
          sends_delta subscription ka a
          ∷ sends_delta subscription kb b
          ∷ sends_delta subscription ka c
          ∷ writes true
          ∷ writes true
          ∷ [])
        ≡ record (queue_session capacity reserve current (counter + 2) []) {
          taken =
              slot subscription ka (counter + 1) (c (counter + 1))
              ∷ slot subscription kb (counter + 2) (b (counter + 2))
              ∷ [];
          sent =
              slot subscription ka (counter + 1) (c (counter + 1))
              ∷ slot subscription kb (counter + 2) (b (counter + 2))
              ∷ [];
        }
    unfolding run
    coalesced_first =
        rw
          (
            sends_first capacity reserve current counter subscription ka a c room left,
            sends_second,
            replaces_first,
          )
          writes_both
