-- ===== src/Outbound/Session.antt =====
-- The connection of crates/k10s-server/src/control.rs that feeds the scheduler: the sequence counter of
-- the session and the functions that enqueue with it. A frame is `frame n`, the text that is
-- serialized with the sequence `n`; the parts that do not depend on it are the caller's.
use k10s.Base.{
  ℕ, Bool, false, not, ◌&&◌, is_some, ◌+◌, ◌-◌, ◌^◌, String, Option, none, some, List, [], ◌∷◌,
  ◌++◌, ◌==◌, if◌then◌else◌, Reply, ok, err, ◌≡◌, ◌⊎◌, inl, inr, Bool-cases,
}
use k10s.Outbound.Queue.{Priority, EnqueueError, overloaded, SessionProtocol, Entry, Scheduler}
use k10s.Outbound.Scheduler.{
  Built, Received, item, finished, waiting, selected_missing, enqueue, enqueue_p2,
  enqueue_sequenced, enqueue_p0_sequenced, enqueue_p2_sequenced, enqueue_p2_barrier, recv, close,
  overload_close, set_negotiated_protocol,
}

-- u64::MAX
abbrev pub max_u64 : ℕ
max_u64 = 2 ^ 64 - 1

-- `checked_add`, and the compare-exchange, which succeeds in the end: one atomic step.
unfoldable pub allocate_sequence : ℕ → Option ℕ × ℕ
allocate_sequence counter =
    if counter == max_u64 then (none, counter) else (some (counter + 1), counter + 1)

module _ {M : Type 0} where
  abbrev pub built : (ℕ → M) → Option ℕ × ℕ → Built ℕ M
  built frame (none, counter) = (err overloaded, counter)
  built frame (some n, counter) = (ok (n, frame n), counter)

  -- The closures of `send_sequenced`, `forward_operation_update` and `demand_resync`.
  unfoldable pub build_fresh : (ℕ → M) → ℕ → Built ℕ M
  unfolding allocate_sequence
  build_fresh frame counter = built frame (allocate_sequence counter)

  -- It hands out the next sequence, or fails and leaves the counter.
  pub build_fresh-cases :
      (frame : ℕ → M) (counter : ℕ)
      → (build_fresh frame counter ≡ (err overloaded, counter))
        ⊎ (build_fresh frame counter ≡ (ok (counter + 1, frame (counter + 1)), counter + 1))
  unfolding build_fresh
  build_fresh-cases frame counter = elim (Bool-cases (counter == max_u64)) [
    | inl e ↦ inl (rw (e, allocate_sequence))
    | inr e ↦ inr (rw (e, allocate_sequence))
  ]

  -- The closure of `enqueue_delta` and `enqueue_telemetry`.
  unfoldable pub build_queued : (ℕ → M) → Option ℕ → ℕ → Built ℕ M
  unfolding build_fresh
  build_queued frame (some n) counter = (ok (n, frame n), counter)
  build_queued frame none counter = build_fresh frame counter

pub record Session (M : Type 0) : Type 0 where
  pub scheduler : Scheduler M
  pub counter : ℕ
  -- What the writer took from the scheduler so far, and what of it the socket accepted, oldest first.
  pub taken : List (Entry M)
  pub sent : List (Entry M)
  -- The writer has no lease to keep or its lease is the current one. Once another transport has the
  -- session the lease is never current again.
  pub leased : Bool
  -- The writer's loop goes on.
  pub writing : Bool

pub data Call (M : Type 0) : Type 0 where
  sends : Priority → M → Call M
  sends_p2 : String → M → Call M
  sends_sequenced : (ℕ → M) → Call M
  forwards_operation : (ℕ → M) → Call M
  sends_delta : String → String → (ℕ → M) → Call M
  demands_resync : (ℕ → M) → Call M
  -- A round of the writer, in which the socket accepts the frame or fails.
  writes : Bool → Call M
  -- Another transport takes the session over.
  lapses : Call M
  -- The writer is cancelled.
  stops : Call M
  negotiates : ℕ → Call M
  closes : Call M
  overloads : M → Call M

module _ {M : Type 0} where
  -- The text of a sequenced entry carries its sequence and no other text carries one, so the sequence
  -- that the writer reads from the text is the entry's. What the writer records is in Resume.
  abbrev pub after_write : Session M → Bool → Scheduler M × Received M → Session M
  after_write s accepted (t, item e) =
      if is_some e.sequence && not s.leased
      then record s { scheduler = t; taken = s.taken ++ e ∷ [] }
      else if accepted
      then record s { scheduler = t; taken = s.taken ++ e ∷ []; sent = s.sent ++ e ∷ [] }
      else record s { scheduler = t; taken = s.taken ++ e ∷ []; writing = false }
  after_write s accepted (t, waiting) = record s { scheduler = t }
  after_write s accepted (t, finished) = record s { scheduler = t; writing = false }
  after_write s accepted (t, selected_missing) = record s { scheduler = t; writing = false }

module _ {M : Type 0} (prepare_message : SessionProtocol → M → M) where
  abbrev pub counted : Session M → Scheduler M × ℕ × Reply EnqueueError (Unit {0}) → Session M
  counted s (t, counter, r) = record s { scheduler = t; counter = counter }

  unfoldable pub step : Session M → Call M → Session M
  unfolding build_queued
  step s (sends priority message) = record s {
    scheduler = (enqueue prepare_message priority message s.scheduler).0;
  }
  step s (sends_p2 r message) = record s {
    scheduler = (enqueue_p2 prepare_message r message s.scheduler).0;
  }
  step s (sends_sequenced frame) =
      counted s (enqueue_sequenced prepare_message (build_fresh frame) s.counter s.scheduler)
  step s (forwards_operation frame) =
      counted s (enqueue_p0_sequenced prepare_message (build_fresh frame) s.counter s.scheduler)
  step s (sends_delta subscription r frame) = counted s (
      enqueue_p2_sequenced prepare_message subscription r (build_queued frame) s.counter
        s.scheduler)
  step s (demands_resync frame) =
      counted s (enqueue_p2_barrier prepare_message (build_fresh frame) s.counter s.scheduler)
  step s (writes accepted) = if s.writing then after_write s accepted (recv s.scheduler) else s
  step s lapses = record s { leased = false }
  step s stops = record s { writing = false }
  step s (negotiates minor) = record s { scheduler = set_negotiated_protocol s.scheduler minor }
  step s closes = record s { scheduler = close s.scheduler }
  step s (overloads message) = record s { scheduler = overload_close s.scheduler message }

  unfoldable pub run : Session M → List (Call M) → Session M
  run s [] = s
  run s (c ∷ cs) = run (step s c) cs
