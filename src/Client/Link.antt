-- ===== src/Client/Link.antt =====
-- The connection and the requests of a client: the phases, the bounded queue of frames, the reconnect
-- timer and the pending requests of `ClientState` in crates/k10s-ui/src/client/state.rs. The actions
-- and the results of requests are of any types `A` and `R`, the bootstrap answer of any type `B`. The
-- text of a request ID is made of its number by the parameter `request_id`, `to_string`. Clocks and
-- entropy are arguments. The other fields of the state are in the records of Client.Views,
-- Client.Operations and Client.Forwards. Of the fields of a frame's payload only those are kept that
-- the state decides; the infrastructure and traffic caches are left out.
use k10s.Base.{ℕ, ◌+◌, ◌-◌, ◌*◌, ◌^◌, String, Bool, true, false, Option, List, min}
use k10s.Base.Maps.{Map}
use k10s.Client.Errors.{ErrorFrame}
use k10s.Client.Views.{Views}
use k10s.Client.Operations.{Mutations}
use k10s.Client.Forwards.{Forwards}

-- u64::MAX, and the bound of a `usize`.
abbrev pub max_word : ℕ
max_word = 2 ^ 64 - 1

abbrev pub saturating_add : ℕ → ℕ → ℕ
saturating_add a b = min (a + b) max_word

abbrev pub saturating_mul : ℕ → ℕ → ℕ
saturating_mul a b = min (a * b) max_word

pub data ClientPhase : Type 0 where
  disconnected authenticating ready web_gate upgrade_required closed : ClientPhase

pub record ClientConfig : Type 0 where
  pub capabilities : List String
  pub retry_base_ms : ℕ
  pub retry_cap_ms : ℕ
  pub outbound_capacity : ℕ
  pub request_capacity : ℕ

pub record ConnectTarget : Type 0 where
  pub url : String
  pub access_token : String

pub record RetrySchedule : Type 0 where
  pub attempt : ℕ
  pub max_delay_ms : ℕ
  pub retry_at_ms : ℕ

pub data ClientFrame (A S : Type 0) : Type 0 where
  hello : List String → String → Option String → Option String → Option ℕ → ClientFrame A S
  request : String → A → Option ℕ → ClientFrame A S
  cancel_request : String → ClientFrame A S
  subscribe : String → S → ClientFrame A S
  unsubscribe : String → ClientFrame A S
  ack : ℕ → ClientFrame A S

pub record PendingEntry (A : Type 0) : Type 0 where
  pub action : A
  pub deadline_at_ms : Option ℕ
  pub cancelled : Bool

pub record Link (A R B S : Type 0) : Type 0 where
  pub config : ClientConfig
  pub phase : ClientPhase
  pub outbound : List (ClientFrame A S)
  pub next_request_id : ℕ
  pub next_subscription_id : ℕ
  pub pending : Map (PendingEntry A)
  pub completed : Map R
  pub completed_failures : Map ErrorFrame
  pub rebuilt_bootstrap : Option String
  pub target : Option ConnectTarget
  pub retry_attempt : ℕ
  pub retry : Option RetrySchedule
  pub reconnecting : Bool
  pub last_acked_sequence : Option ℕ
  pub server_bootstrap : Option B
  pub port_forward_subscribed : Option String
  pub port_forward_reconstruction : Option String
  pub internal_port_forward_reconstruction : Option String
  pub server_state_invalid : Bool
  pub session_id : Option String
  pub server_instance_id : Option String
  pub negotiated_protocol_minor : Option ℕ

pub record ClientState (A R B S W G D : Type 0) : Type 0 where
  pub link : Link A R B S
  pub views : Views S W
  pub mutations : Mutations G
  pub forwards : Forwards D

abbrev pub is_ready : ClientPhase → Bool
is_ready ready = true
is_ready disconnected = false
is_ready authenticating = false
is_ready web_gate = false
is_ready upgrade_required = false
is_ready closed = false

abbrev pub is_closed : ClientPhase → Bool
is_closed closed = true
is_closed disconnected = false
is_closed authenticating = false
is_closed ready = false
is_closed web_gate = false
is_closed upgrade_required = false

abbrev pub is_authenticating : ClientPhase → Bool
is_authenticating authenticating = true
is_authenticating disconnected = false
is_authenticating ready = false
is_authenticating web_gate = false
is_authenticating upgrade_required = false
is_authenticating closed = false

abbrev pub is_disconnected : ClientPhase → Bool
is_disconnected disconnected = true
is_disconnected authenticating = false
is_disconnected ready = false
is_disconnected web_gate = false
is_disconnected upgrade_required = false
is_disconnected closed = false

-- The phases in which a lost transport is not retried.
abbrev pub is_final : ClientPhase → Bool
is_final web_gate = true
is_final upgrade_required = true
is_final closed = true
is_final disconnected = false
is_final authenticating = false
is_final ready = false

abbrev pub is_ack : {A S : Type 0} → ClientFrame A S → Bool
is_ack (ack n) = true
is_ack (hello c t i s n) = false
is_ack (request id a d) = false
is_ack (cancel_request id) = false
is_ack (subscribe id s) = false
is_ack (unsubscribe id) = false
