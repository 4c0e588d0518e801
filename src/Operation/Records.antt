-- ===== src/Operation/Records.antt =====
-- The data of crates/k10s-backend/src/operation.rs and crates/k10s-backend/src/operation/state.rs. An
-- `Instant` is a number of time units since some origin.
use k10s.Base.{ℕ, String, Bool, true, false, Option}

pub data OperationState : Type 0 where
  pending running succeeded failed cancelled outcome_unknown : OperationState

unfoldable pub is_terminal : OperationState → Bool
is_terminal succeeded = true
is_terminal failed = true
is_terminal cancelled = true
is_terminal _ = false

-- The variants of `BackendError` that the engine returns.
pub data BackendError : Type 0 where
  not_found : BackendError
  conflict : String → BackendError

pub record OperationRecord : Type 0 where
  pub id : String
  pub state : OperationState
  pub progress : Option (ℕ × ℕ)
  pub detail : Option String

pub record OperationEvent : Type 0 where
  pub id : String
  pub state : OperationState
  pub progress : Option (ℕ × ℕ)
  pub detail : Option String

pub data AcceptOutcome : Type 0 where
  accepted replayed : String → AcceptOutcome

unfoldable pub operation_id : AcceptOutcome → String
operation_id (accepted id) = id
operation_id (replayed id) = id

pub record Retained : Type 0 where
  pub operation : OperationRecord
  pub scope : String
  pub updated_at : ℕ

unfoldable pub event_from : OperationRecord → Option String → OperationEvent
event_from r detail = record { id = r.id; state = r.state; progress = r.progress; detail = detail }
