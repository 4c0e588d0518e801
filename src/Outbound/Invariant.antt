-- ===== src/Outbound/Invariant.antt =====
-- The bounds of crates/k10s-server/src/outbound.rs along every history of a session of
-- crates/k10s-server/src/control.rs.
use k10s.Base.{
  Bool, not, ◌&&◌, is_some, ℕ, ◌≢◌, refl, inl, inr, Option, none, some, List, [], ◌∷◌, arith,
  if_cases, panic,
}
use k10s.Outbound.Queue.{SessionProtocol, Entry, Scheduler, has_identity, is_resource}
use k10s.Outbound.Scheduler.{
  with_queue, Received, recv, overload_close, close, set_negotiated_protocol,
}
use k10s.Outbound.Bounds.{IsSound, remove-IsSound}
use k10s.Outbound.Safety.{
  IsWellFormed, enqueue-IsSafe, enqueue_p2-IsSafe, enqueue_sequenced-IsSafe,
  enqueue_p0_sequenced-IsSafe, enqueue_p2_barrier-IsSafe, enqueue_p2_sequenced-IsSafe,
}
use k10s.Outbound.Delivery.{IsDue, urgent, response, ordered, oldest, Delivers, recv-Delivers}
use k10s.Outbound.Session.{
  Session, Call, sends, sends_p2, sends_sequenced, forwards_operation, sends_delta, demands_resync,
  writes, lapses, stops, negotiates, closes, overloads, build_fresh, build_fresh-cases,
  build_queued, step, run, after_write,
}

module _ {M : Type 0} where
  build_fresh-ne-panic : (frame : ℕ → M) (c : ℕ) → (build_fresh frame c).0 ≢ panic
  build_fresh-ne-panic frame c = elim (build_fresh-cases frame c) [
    | inl e ↦ rw e (λ p. cc)
    | inr e ↦ rw e (λ p. cc)
  ]

  pub build_queued-ne-panic :
      (frame : ℕ → M) (o : Option ℕ) (c : ℕ) → (build_queued frame o c).0 ≢ panic
  unfolding build_queued
  build_queued-ne-panic frame none c = build_fresh-ne-panic frame c
  build_queued-ne-panic frame (some n) c = λ p. cc

  IsDue-IsSound :
      (capacity reserve : ℕ) (q rest : List (Entry M)) (e : Entry M)
      → IsSound capacity reserve q
      → IsDue q e rest
      → IsSound capacity reserve rest
  IsDue-IsSound c r q rest e h (urgent front s _ _) = remove-IsSound c r q h e front rest s
  IsDue-IsSound c r q rest e h (response front s _ _ _) = remove-IsSound c r q h e front rest s
  IsDue-IsSound c r q rest e h (ordered front s _ _ _ _ _ _) = remove-IsSound c r q h e front rest s
  IsDue-IsSound c r q rest e h (oldest _ _ _ w) =
      remove-IsSound c r q h e [] rest (record { back = rest; whole = w; left = refl })

  after_write-IsWellFormed :
      (s : Session M) (accepted : Bool) (r : Scheduler M × Received M)
      → Delivers s.scheduler r
      → IsWellFormed s.scheduler
      → IsWellFormed (after_write s accepted r).scheduler
  after_write-IsWellFormed s accepted r (inl (e, w)) h = rw w (
      if_cases
        (λ (x : Received M). IsWellFormed (after_write s accepted (s.scheduler, x)).scheduler)
        s.scheduler.state.closed (λ _. h) (λ _. h))
  after_write-IsWellFormed s accepted r (inr (e, rest, w, d)) h =
      let P = λ (t : Session M). IsWellFormed t.scheduler in
      let left : IsWellFormed (with_queue s.scheduler rest) = record {
        positive = h.positive;
        reserve = h.reserve;
        sound = IsDue-IsSound s.scheduler.capacity s.scheduler.reliable_reserve _ rest e h.sound d;
      } in
      rw w (
        if_cases P (is_some e.sequence && not s.leased) (λ _. left)
          (λ _. if_cases P accepted (λ _. left) (λ _. left)))

  overload_close-IsWellFormed :
      (s : Scheduler M) (m : M) → IsWellFormed s → IsWellFormed (overload_close s m)
  unfolding overload_close is_resource has_identity
  overload_close-IsWellFormed s m h = record {
    positive = h.positive;
    reserve = h.reserve;
    sound = record {
      room = omega (arith, h.positive);
      partition = omega arith;
      unique = λ i. omega arith;
      retained = ((λ e. cc), tt);
    };
  }

module _ {M : Type 0} (prepare_message : SessionProtocol → M → M) where
  step-IsWellFormed :
      (s : Session M) (c : Call M)
      → IsWellFormed s.scheduler
      → IsWellFormed (step prepare_message s c).scheduler
  unfolding step close set_negotiated_protocol
  step-IsWellFormed s (sends p m) h = (enqueue-IsSafe prepare_message s.scheduler h p m).well_formed
  step-IsWellFormed s (sends_p2 r m) h =
      (enqueue_p2-IsSafe prepare_message s.scheduler h r m).well_formed
  step-IsWellFormed s (sends_sequenced frame) h =
      (enqueue_sequenced-IsSafe prepare_message s.scheduler h (build_fresh frame)
        (build_fresh-ne-panic frame) s.counter).well_formed
  step-IsWellFormed s (forwards_operation frame) h =
      (enqueue_p0_sequenced-IsSafe prepare_message s.scheduler h (build_fresh frame)
        (build_fresh-ne-panic frame) s.counter).well_formed
  step-IsWellFormed s (sends_delta t r frame) h =
      (enqueue_p2_sequenced-IsSafe prepare_message s.scheduler h (build_queued frame)
        (build_queued-ne-panic frame) s.counter t r).well_formed
  step-IsWellFormed s (demands_resync frame) h =
      (enqueue_p2_barrier-IsSafe prepare_message s.scheduler h (build_fresh frame)
        (build_fresh-ne-panic frame) s.counter).well_formed
  step-IsWellFormed s (writes accepted) h =
      if_cases (λ (t : Session M). IsWellFormed t.scheduler) s.writing
        (λ _. after_write-IsWellFormed s accepted (recv s.scheduler) (recv-Delivers s.scheduler) h)
        (λ _. h)
  step-IsWellFormed s lapses h = h
  step-IsWellFormed s stops h = h
  step-IsWellFormed s (negotiates minor) h = record {
    positive = h.positive;
    reserve = h.reserve;
    sound = h.sound;
  }
  step-IsWellFormed s closes h = record {
    positive = h.positive;
    reserve = h.reserve;
    sound = h.sound;
  }
  step-IsWellFormed s (overloads m) h = overload_close-IsWellFormed s.scheduler m h

  -- Every history keeps the queue within its capacity, the coalescible entries out of the reserve, at
  -- most one entry for each coalescing identity, and a sequence in each entry of a subscription.
  pub run-IsWellFormed :
      (s : Session M) (cs : List (Call M))
      → IsWellFormed s.scheduler
      → IsWellFormed (run prepare_message s cs).scheduler
  unfolding run
  run-IsWellFormed s [] h = h
  run-IsWellFormed s (c ∷ cs) h =
      run-IsWellFormed (step prepare_message s c) cs (step-IsWellFormed s c h)
