-- ===== src/Outbound/Contiguity.antt =====
-- The sequences that a session allocates in crates/k10s-server/src/control.rs reach the writer without
-- a gap, whatever the priorities of their entries: crates/k10s-server/src/outbound.rs.
use k10s.Base.{ℕ, true, ◌≤◌, ◌≡◌, Option, List, [], Upto, Reply}
use k10s.Outbound.Queue.{EnqueueError, SessionProtocol, Entry, Scheduler}
use k10s.Outbound.Selection.{sequence_of, sequences}
use k10s.Outbound.Session.{Session, Call, overloads}

-- The sequences that the writer took run from `start` on without a gap, and the queued ones, in queue
-- order, go on from there up to the counter. Those that the socket accepted run from `start` on without
-- a gap too, and as far as those that were taken while the writer goes on and has its lease.
pub record IsContiguous {M : Type 0} (start : ℕ) (s : Session M) : Type 0 where
  pub last : ℕ
  pub taken_run : Upto start last (sequences s.taken)
  pub queued_run : Upto last s.counter (sequences s.scheduler.state.queue)
  pub mark : ℕ
  pub written : Upto start mark (sequences s.sent)
  pub behind : mark ≤ last
  pub abreast : s.writing ≡ true → s.leased ≡ true → mark ≡ last

module _ {M : Type 0} (prepare_message : SessionProtocol → M → M) where
  abbrev SameSequences : Scheduler M → Scheduler M × Reply EnqueueError (Unit {0}) → Type 0
  SameSequences s (t, r) = sequences t.state.queue ≡ sequences s.state.queue

module _ {M : Type 0} where
  abbrev Taken : ℕ → ℕ → Option ℕ → List (Entry M) → Type 0
  Taken lo hi o rest = (mid : ℕ) × Upto lo mid (sequence_of o []) × Upto mid hi (sequences rest)

-- Everything but the overload, which clears the queue.
abbrev pub IsRegular : {M : Type 0} → Call M → Type 0
IsRegular (overloads message) = ⊥
IsRegular _ = Unit
