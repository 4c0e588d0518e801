-- ===== src/Outbound/Scheduler.antt =====
-- The operations of `Scheduler` in crates/k10s-server/src/outbound.rs. The lock is held over each of
-- them, so each is one step. `Notify` only wakes the receiver: a pass of `recv` that would wait for it
-- is the result `waiting`. A `debug_assert` is not modelled.
use k10s.Base.{
  ℕ, ◌-◌, String, Bool, true, false, ◌||◌, Option, none, some, List, [], ◌∷◌, ◌++◌, min, max, leb,
  ◌==◌, if◌then◌else◌, if_some, length, any, find, count_where, Reply, ok, err, panic,
}
use k10s.Outbound.Queue.{
  Priority, p0, p1, p2, EnqueueError, overloaded, coalesced, P2Identity, resource, recovery_barrier,
  SessionProtocol, Entry, Scheduler, is_resource, has_identity, update_first, remove_at, next_index,
}

module _ {M : Type 0} where
  abbrev pub with_queue : Scheduler M → List (Entry M) → Scheduler M
  with_queue s q = record s { state = record s.state { queue = q } }

  unfoldable pub new : ℕ → ℕ → SessionProtocol → Scheduler M
  new capacity reliable_reserve current =
      let capacity = max capacity 1 in
      record {
        capacity = capacity;
        reliable_reserve = min reliable_reserve capacity;
        state = record { queue = []; closed = false };
        protocol = current;
      }

  unfoldable pub set_negotiated_protocol : Scheduler M → ℕ → Scheduler M
  set_negotiated_protocol s minor = record s { protocol = record { minor = minor } }

  -- No room in the queue, or no queue any more.
  unfoldable pub refuses : Scheduler M → Bool
  refuses s = s.state.closed || length s.state.queue == s.capacity

  -- No room in the partition of coalescible entries.
  unfoldable pub partition_full : Scheduler M → Bool
  partition_full s =
      length s.state.queue == s.capacity
      || leb (s.capacity - s.reliable_reserve) (count_where is_resource s.state.queue)

  unfoldable len : Scheduler M → ℕ
  len s = length s.state.queue

  unfoldable is_empty : Scheduler M → Bool
  unfolding len
  is_empty s = len s == 0

  unfoldable pub close : Scheduler M → Scheduler M
  close s = record s { state = record s.state { closed = true } }

  unfoldable pub overload_close : Scheduler M → M → Scheduler M
  overload_close s message =
      with_queue s
        (record { priority = p0; message = message; p2_identity = none; sequence = none } ∷ [])

-- The closure that builds a sequenced message: it may allocate a sequence from the state `W`.
abbrev pub Built : Type 0 → Type 0 → Type 0
Built W M = Reply EnqueueError (ℕ × M) × W

abbrev pub Outcome : Type 0 → Type 0 → Type 0
Outcome W M = Scheduler M × W × Reply EnqueueError (Unit {0})

module _ {M : Type 0} (prepare_message : SessionProtocol → M → M) where
  abbrev pub queued : Scheduler M → Priority → M → Option P2Identity → Option ℕ → Scheduler M
  queued s priority message identity sequence = with_queue s (
      s.state.queue
      ++ record {
        priority = priority;
        message = prepare_message s.protocol message;
        p2_identity = identity;
        sequence = sequence;
      }
        ∷ [])

  abbrev pub replaced : Scheduler M → P2Identity → M → Scheduler M
  replaced s identity message = with_queue s (
      update_first (has_identity identity)
        (λ e. record e { message = prepare_message s.protocol message }) s.state.queue)

  unfoldable pub enqueue : Priority → M → Scheduler M → Scheduler M × Reply EnqueueError (Unit {0})
  enqueue priority message s =
      if refuses s then (s, err overloaded) else (queued s priority message none none, ok tt)

  unfoldable pub enqueue_p2 : String → M → Scheduler M → Scheduler M × Reply EnqueueError (Unit {0})
  enqueue_p2 r message s =
      let identity = resource none r in
      if s.state.closed
      then (s, err coalesced)
      else if_some (find (has_identity identity) s.state.queue)
          (λ e. (replaced s identity message, ok tt))
          (if partition_full s
            then (s, err coalesced)
            else (queued s p2 message (some identity) none, ok tt))

  -- `let (sequence, message) = build()?` and the push that follows it.
  abbrev pub push_built :
      {W : Type 0} → Scheduler M → Priority → Option P2Identity → Built W M → Outcome W M
  push_built s priority identity (ok (n, message), w) =
      (queued s priority message identity (some n), w, ok tt)
  push_built s priority identity (err e, w) = (s, w, err e)
  push_built s priority identity (panic, w) = (s, w, panic)

  abbrev pub replace_built : {W : Type 0} → Scheduler M → P2Identity → Built W M → Outcome W M
  replace_built s identity (ok (n, message), w) = (replaced s identity message, w, ok tt)
  replace_built s identity (err e, w) = (s, w, err e)
  replace_built s identity (panic, w) = (s, w, panic)

  built_or_refused : {W : Type 0} → Priority → (W → Built W M) → W → Scheduler M → Outcome W M
  built_or_refused priority build w s =
      if refuses s then (s, w, err overloaded) else push_built s priority none (build w)

  unfoldable pub enqueue_sequenced : {W : Type 0} → (W → Built W M) → W → Scheduler M → Outcome W M
  unfolding built_or_refused
  enqueue_sequenced = built_or_refused p1

  unfoldable pub enqueue_p0_sequenced :
      {W : Type 0} → (W → Built W M) → W → Scheduler M → Outcome W M
  unfolding built_or_refused
  enqueue_p0_sequenced = built_or_refused p0

  -- The `expect` on the sequence of the entry that is replaced.
  abbrev pub coalesce :
      {W : Type 0}
      → (Option ℕ → W → Built W M)
      → W
      → Scheduler M
      → P2Identity
      → Option ℕ
      → Outcome W M
  coalesce build w s identity (some n) = replace_built s identity (build (some n) w)
  coalesce build w s identity none = (s, w, panic)

  unfoldable pub enqueue_p2_sequenced :
      {W : Type 0} → String → String → (Option ℕ → W → Built W M) → W → Scheduler M → Outcome W M
  enqueue_p2_sequenced subscription r build w s =
      let identity = resource (some subscription) r in
      if s.state.closed
      then (s, w, err coalesced)
      else if_some (find (has_identity identity) s.state.queue)
          (λ e. coalesce build w s identity e.sequence)
          (if partition_full s
            then (s, w, err coalesced)
            else push_built s p2 (some identity) (build none w))

  unfoldable pub enqueue_p2_barrier : {W : Type 0} → (W → Built W M) → W → Scheduler M → Outcome W M
  enqueue_p2_barrier build w s =
      if s.state.closed
      then (s, w, err overloaded)
      else if any (has_identity recovery_barrier) s.state.queue
      then (s, w, ok tt)
      else if length s.state.queue == s.capacity
      then (s, w, err overloaded)
      else push_built s p2 (some recovery_barrier) (build w)

-- One pass of the loop of `recv`: an entry, the end of a closed queue, or the wait for `Notify`.
pub data Received (M : Type 0) : Type 0 where
  item : Entry M → Received M
  finished : Received M
  waiting : Received M
  selected_missing : Received M

module _ {M : Type 0} where
  abbrev pub take_index : Scheduler M → Option ℕ → Scheduler M × Received M
  take_index s none = (s, if s.state.closed then finished else waiting)
  take_index s (some i) = elim (remove_at s.state.queue i) [
    | none ↦ (s, selected_missing)
    | some (e, rest) ↦ (with_queue s rest, item e)
  ]

  unfoldable pub recv : Scheduler M → Scheduler M × Received M
  recv s = take_index s (next_index s.state.queue)

  -- The text that reaches the socket.
  unfoldable pub delivered_message : Received M → Option M
  delivered_message (item e) = some e.message
  delivered_message _ = none
