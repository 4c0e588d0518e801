-- ===== src/Operation/Outcomes.antt =====
-- What a transition does: crates/k10s-backend/src/operation/state.rs.
use k10s.Base.{
  ℕ, ◌≡◌, ◌≢◌, ◌⊎◌, String, true, false, Option, none, some, string_eq, Reply, ok, err, List, [],
  ◌∷◌, ◌++◌, map, retain, ltb,
}
use k10s.Base.Maps.{lookup}
use k10s.Operation.Records.{
  OperationState, pending, running, succeeded, failed, cancelled, outcome_unknown, BackendError,
  not_found, conflict, Retained, OperationEvent, event_from,
}
use k10s.Operation.Engine.{Inner, Watcher}
use k10s.Operation.Idempotency
use k10s.Operation.Idempotency.{IdempotencyStore}
use k10s.Operation.Lifecycle.{bad_progress, moved}

-- The lifecycle of an operation.
pub data Moves : OperationState → OperationState → Type 0 where
  starts : Moves pending running
  cancels : Moves pending cancelled
  refused : Moves pending failed
  progresses : Moves running running
  succeeds : Moves running succeeded
  fails : Moves running failed
  lost : Moves running outcome_unknown
  found_done : Moves outcome_unknown succeeded
  found_failed : Moves outcome_unknown failed

-- What becomes of the keys: an operation that failed or was cancelled loses its own, so that the
-- submission may be tried again; the keys of any other stay.
abbrev pub Keys : OperationState → String → IdempotencyStore → IdempotencyStore → Type 0
Keys failed id before after = after ≡ Idempotency.remove_operation id before
Keys cancelled id before after = after ≡ Idempotency.remove_operation id before
Keys pending id before after = after ≡ before
Keys running id before after = after ≡ before
Keys succeeded id before after = after ≡ before
Keys outcome_unknown id before after = after ≡ before

-- Each watcher that has receivers is told of the event; those without any are let go.
abbrev pub Told : OperationEvent → List Watcher → List Watcher → Type 0
Told e before after =
    after
    ≡ map (λ (w : Watcher). record w { sent = w.sent ++ e ∷ [] })
        (retain (λ (w : Watcher). ltb 0 w.receiver_count) before)

-- The answer of a transition of `id` to `next`: an admitted one follows the lifecycle, has sound
-- progress, writes the new record, leaves every other operation, and tells the watchers; a refused one
-- leaves the engine.
pub data Transitions (id : String) (next : OperationState) (p : Option (ℕ × ℕ)) (d : Option String)
    (now : ℕ) (s : Inner) : Inner × Reply BackendError (Unit {0}) → Type 0 where
  admitted :
      (v : Retained) (t : Inner)
      → lookup id s.operations ≡ some v
      → Moves v.operation.state next
      → bad_progress p ≡ false
      → lookup id t.operations ≡ some (moved v next p d now)
      → ((other : String) → other ≢ id → lookup other t.operations ≡ lookup other s.operations)
      → Keys next id s.idempotency t.idempotency
      → Told (event_from (moved v next p d now).operation d) s.watchers t.watchers
      → t
        ≡ record s { operations = t.operations; idempotency = t.idempotency; watchers = t.watchers }
      → Transitions id next p d now s (t, ok tt)
  unknown : lookup id s.operations ≡ none → Transitions id next p d now s (s, err not_found)
  rejected :
      (v : Retained) (why : String)
      → lookup id s.operations ≡ some v
      → (¬ Moves v.operation.state next) ⊎ (bad_progress p ≡ true)
      → Transitions id next p d now s (s, err (conflict why))
