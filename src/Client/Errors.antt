-- ===== src/Client/Errors.antt =====
-- The errors that a client reports, and those that a server sends: crates/k10s-ui/src/client/state.rs
-- and crates/k10s-protocol/src/error.rs. Of the details of an error frame, which are any JSON, only
-- the number `serverProtocolMajor` is kept.
use k10s.Base.{ℕ, String, Bool, true, false, Option}

pub data ErrorCode : Type 0 where
  unsupported_message invalid_request unauthorized incompatible_version not_found : ErrorCode
  conflict internal timeout cancelled : ErrorCode

pub data Retryability : Type 0 where
  never after_reconnect after_refresh user_action : Retryability

pub data ErrorScope : Type 0 where
  request session subscription : ErrorScope

abbrev pub is_after_reconnect : Retryability → Bool
is_after_reconnect never = false
is_after_reconnect after_reconnect = true
is_after_reconnect after_refresh = false
is_after_reconnect user_action = false

abbrev pub is_request_scope : ErrorScope → Bool
is_request_scope request = true
is_request_scope session = false
is_request_scope subscription = false

abbrev pub is_unauthorized : ErrorCode → Bool
is_unauthorized unsupported_message = false
is_unauthorized invalid_request = false
is_unauthorized unauthorized = true
is_unauthorized incompatible_version = false
is_unauthorized not_found = false
is_unauthorized conflict = false
is_unauthorized internal = false
is_unauthorized timeout = false
is_unauthorized cancelled = false

abbrev pub is_incompatible_version : ErrorCode → Bool
is_incompatible_version unsupported_message = false
is_incompatible_version invalid_request = false
is_incompatible_version unauthorized = false
is_incompatible_version incompatible_version = true
is_incompatible_version not_found = false
is_incompatible_version conflict = false
is_incompatible_version internal = false
is_incompatible_version timeout = false
is_incompatible_version cancelled = false

abbrev pub is_subscription_scope : ErrorScope → Bool
is_subscription_scope subscription = true
is_subscription_scope request = false
is_subscription_scope session = false

pub record ErrorFrame : Type 0 where
  pub code : ErrorCode
  pub safe_message : String
  pub retryability : Retryability
  pub scope : ErrorScope
  pub correlation_id : String
  pub details : Option ℕ

-- A request ID is its text.
pub data ClientError : Type 0 where
  unknown_response : String → ClientError
  invalid_state : String → ClientError
  protocol : String → ClientError
  sequence_gap : ℕ → ℕ → ClientError
  authentication_rejected : ClientError
  incompatible_protocol : ℕ → ℕ → ClientError
  server : ErrorFrame → ClientError
  outbound_overload : ℕ → ClientError
  live_subscription_limit : ℕ → ClientError
  request_retention_limit : ℕ → ClientError
