-- ===== src/Outbound/Examples.antt =====
-- Concrete sessions of the scheduler of crates/k10s-server/src/outbound.rs.
use k10s.Base.{true, false, ℕ, ◌+◌, ◌≡◌, refl, List, [], ◌∷◌, map, some, none, arith, ok}
use k10s.Outbound.Queue.{
  p1, SessionProtocol, Entry, Scheduler, resource, has_identity, same_identity, is_resource,
  next_index, position, update_first, unsequenced_p0, unsequenced_p1, remove_at, min_sequence,
}
use k10s.Outbound.Scheduler.{
  new, recv, enqueue, enqueue_p2, enqueue_sequenced, enqueue_p0_sequenced, enqueue_p2_sequenced,
  enqueue_p2_barrier, refuses, partition_full,
}
use k10s.Outbound.Delivery.{Delivers, recv-Delivers}
use k10s.Outbound.Session.{
  lapses, Session, Call, sends, sends_sequenced, sends_delta, demands_resync, writes, overloads,
  step, run, build_fresh, build_queued,
}
use k10s.Outbound.Safety.{IsWellFormed, IsSafe, new-IsWellFormed, enqueue_p2_sequenced-IsSafe}
use k10s.Outbound.Invariant.{run-IsWellFormed, build_queued-ne-panic}
use k10s.Outbound.Admission.{
  Latest, Numbered, reserve_admits, enqueue_p2-Latest, enqueue_p2_sequenced-Numbered,
}

abbrev keep : SessionProtocol → ℕ → ℕ
keep p m = m

abbrev current : SessionProtocol
current = record { minor = 4 }

abbrev frame : ℕ → ℕ
frame n = n + 100

abbrev fresh : Scheduler ℕ
fresh = new 4 2 current

abbrev opened : Session ℕ
opened = record {
  scheduler = fresh;
  counter = 0;
  taken = [];
  sent = [];
  leased = true;
  writing = true;
}

abbrev history : List (Call ℕ)
history =
    sends_delta "s" "pod/a" frame
    ∷ sends p1 7
    ∷ sends_sequenced frame
    ∷ sends_delta "s" "pod/a" frame
    ∷ writes true
    ∷ writes true
    ∷ lapses
    ∷ demands_resync frame
    ∷ writes true
    ∷ writes false
    ∷ []

abbrev written_messages : List ℕ
written_messages = map (λ (e : Entry ℕ). e.message) (run keep opened history).sent

-- The response first, then a sequenced frame; the next one is held back, since the lease has lapsed.
history_messages : written_messages ≡ 7 ∷ 101 ∷ []
unfolding new run step recv enqueue enqueue_sequenced enqueue_p2_sequenced enqueue_p2_barrier
    has_identity same_identity is_resource next_index position refuses partition_full update_first
    unsequenced_p0 unsequenced_p1 remove_at min_sequence
history_messages = refl

recv-Delivers_example :
    Delivers (run keep opened history).scheduler (recv (run keep opened history).scheduler)
recv-Delivers_example = recv-Delivers (run keep opened history).scheduler

run-IsWellFormed_example : IsWellFormed (run keep opened (overloads 9 ∷ history)).scheduler
run-IsWellFormed_example =
    run-IsWellFormed keep opened (overloads 9 ∷ history) (new-IsWellFormed 4 2 current)

enqueue_p2_sequenced-IsSafe_example :
    let o = enqueue_p2_sequenced keep "s" "pod/a" (build_queued frame) 0 fresh in IsSafe o.0 o.2
enqueue_p2_sequenced-IsSafe_example =
    enqueue_p2_sequenced-IsSafe keep fresh (new-IsWellFormed 4 2 current) (build_queued frame)
      (build_queued-ne-panic frame) 0 "s" "pod/a"

reserve_admits_example :
    ((enqueue keep p1 101 fresh).1 ≡ ok tt)
    × ((enqueue_sequenced keep (build_fresh frame) 0 fresh).2 ≡ ok tt)
    × ((enqueue_p0_sequenced keep (build_fresh frame) 0 fresh).2 ≡ ok tt)
unfolding new build_fresh
reserve_admits_example =
    reserve_admits keep fresh p1 101 (build_fresh frame) 0 1 1 (new-IsWellFormed 4 2 current) refl
      (omega arith) refl

enqueue_p2-Latest_example :
    Latest keep fresh (resource none "pod/a") 7 (enqueue_p2 keep "pod/a" 7 fresh)
enqueue_p2-Latest_example = enqueue_p2-Latest keep fresh "pod/a" 7

enqueue_p2_sequenced-Numbered_example :
    Numbered keep fresh
      (resource (some "s") "pod/a")
      frame
      0
      (enqueue_p2_sequenced keep "s" "pod/a" (build_queued frame) 0 fresh)
enqueue_p2_sequenced-Numbered_example = enqueue_p2_sequenced-Numbered keep fresh "s" "pod/a" frame 0
