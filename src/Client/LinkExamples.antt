-- ===== src/Client/LinkExamples.antt =====
-- Concrete connections of a client: crates/k10s-ui/src/client/state.rs.
use k10s.Base.{panic, ok, ℕ, ◌≡◌, refl, String, Bool, true, false, none, some, List, [], ◌∷◌, arith}
use k10s.Client.Errors.{subscription, ErrorFrame, ErrorScope, internal, after_reconnect}
use k10s.Client.Link.{
  authenticating, request, ClientState, ClientPhase, closed, ready, ClientConfig, ConnectTarget,
  ClientFrame, ack,
}
use k10s.Client.Connection.{and_then, queue_ack, take_outbound, transport_lost, retry_if_due}
use k10s.Client.Requests.{take_failure, fail_request}
use k10s.Client.Bounds.{IsBounded}
use k10s.Client.Rebuild.{Actions}
use k10s.Client.Frames.{
  resync_required, Welcome, error_frame, apply_frame, ServerPayload, welcome, needs_resync,
  ServerFrame,
}
use k10s.Client.LinkHistory.{
  subscribes, receives, LinkCall, writes, closes, loses, retries, acknowledges, begins, cancels,
  expires, answers, step, run, run-IsBounded,
}
use k10s.Client.Closed.{run-IsClosed}
use k10s.Client.ClosedCalls.{IsClosed}
use k10s.Client.Subscriptions.{subscription_limit, preflight_subscription_changes}
use k10s.Client.Preflight.{end_all, start_all, preflight-Succeeds}
use k10s.Client.Failures.{fail_request-take_failure}
use k10s.Client.Retry.{HasBegun, lost-HasBegun}

abbrev config : ClientConfig
config = record {
  capabilities = [];
  retry_base_ms = 250;
  retry_cap_ms = 30000;
  outbound_capacity = 3;
  request_capacity = 2;
}

abbrev server : ConnectTarget
server = record { url = "ws://localhost/"; access_token = "token" }

abbrev State : Type 0
State = ClientState String ℕ ℕ ℕ ℕ ℕ ℕ

abbrev in_phase : ClientPhase → List (ClientFrame String ℕ) → State
in_phase phase frames = record {
  link = record {
    config = config;
    phase = phase;
    outbound = frames;
    next_request_id = 0;
    next_subscription_id = 1;
    pending = [];
    completed = [];
    completed_failures = [];
    rebuilt_bootstrap = none;
    target = some server;
    retry_attempt = 3;
    retry = none;
    reconnecting = false;
    last_acked_sequence = some 7;
    server_bootstrap = none;
    port_forward_subscribed = none;
    port_forward_reconstruction = none;
    internal_port_forward_reconstruction = none;
    server_state_invalid = false;
    session_id = some "session";
    server_instance_id = some "instance";
    negotiated_protocol_minor = none;
  };
  views = record {
    live_subscriptions = [];
    active_subscriptions = [];
    resource_specs = [];
    snapshot_assemblies = [];
    completed_snapshots = [];
    resource_lists = [];
  };
  mutations = record {
    operations = [];
    operation_order = [];
    submitted_keys = [];
    submitted_targets = [];
    unverified_unknown_keys = [];
    target_refreshes = [];
    key_order = [];
    operation_refresh = none;
  };
  forwards = record {
    port_forward_sessions = [];
    port_forward_list_revision = 0;
    port_forward_feed_revision = 0;
  };
}

abbrev request_id : ℕ → String
request_id n = "request"

abbrev retains : String → Bool
retains action = true

abbrev actions : Actions String ℕ
actions = record {
  request_id = request_id;
  retains = retains;
  bootstrap = "bootstrap";
  operation_status = λ ids. "operation status";
  resource_detail = λ target. "resource detail";
  port_forward_list = "port-forward list";
  port_forward_sessions = 9;
  resource_spec = λ selector. none;
}

abbrev unsequenced : ServerPayload ℕ ℕ ℕ → ServerFrame ℕ ℕ ℕ
unsequenced payload = record {
  request_id = none;
  subscription_id = none;
  sequence = none;
  payload = payload;
}

abbrev greeting : Welcome
greeting = record {
  major = 1;
  minor = 6;
  session_id = "next";
  server_instance_id = "instance";
  resume_status = resync_required;
}

-- A request is begun, acknowledged twice over, cancelled, and answered; the transport is lost, and the
-- client is welcomed again and rebuilds its state.
abbrev calls : List (LinkCall String ℕ ℕ ℕ ℕ ℕ)
calls =
    begins "list" (some 100) (some 100)
    ∷ acknowledges 8
    ∷ acknowledges 9
    ∷ cancels "request"
    ∷ expires 200
    ∷ answers "request" 1
    ∷ writes
    ∷ loses 200 77
    ∷ retries 40000
    ∷ writes
    ∷ receives 40010 5 (unsequenced (welcome greeting))
    ∷ subscribes request_id 4 none
    ∷ receives 40020 5 (record (unsequenced needs_resync) { sequence = some 12 })
    ∷ []

run-IsBounded_example : IsBounded config (run actions calls (in_phase ready [])).link
run-IsBounded_example = run-IsBounded actions calls (in_phase ready []) (record {
  same = refl;
  frames = omega arith;
  acks = omega arith;
  retained = omega arith;
  sized = omega arith;
  sized_too = omega arith;
})

abbrev late_calls : List (LinkCall String ℕ ℕ ℕ ℕ ℕ)
late_calls =
    receives 10 5 (unsequenced (welcome greeting))
    ∷ acknowledges 8
    ∷ loses 200 77
    ∷ retries 40000
    ∷ closes
    ∷ begins "list" none none
    ∷ []

run-IsClosed_example :
    IsClosed (run actions late_calls (in_phase closed (ack 7 ∷ [])))
    × ((take_outbound (run actions late_calls (in_phase closed (ack 7 ∷ [])))).1 ≡ none)
run-IsClosed_example = run-IsClosed actions late_calls (in_phase closed (ack 7 ∷ [])) refl refl

lost-HasBegun_example :
    HasBegun server
      (in_phase ready (ack 7 ∷ []))
      (retry_if_due 30200 (transport_lost 200 77 (in_phase ready (ack 7 ∷ []))))
lost-HasBegun_example =
    lost-HasBegun 200 77 30200 server (in_phase ready (ack 7 ∷ [])) refl refl (omega arith)
      (omega arith) (omega arith)

-- An acknowledgement takes the place of the one that waits.
acknowledged :
    (run actions (acknowledges 8 ∷ acknowledges 9 ∷ []) (in_phase ready [])).link.outbound
    ≡ ack 9 ∷ []
unfolding run step queue_ack
acknowledged = refl

abbrev waiting : State
waiting = record (in_phase ready []) {
  link = record (in_phase ready []).link {
    pending =
        ("request", record { action = "metrics"; deadline_at_ms = none; cancelled = false }) ∷ [];
  };
}

abbrev failure : ErrorFrame
failure = record {
  code = internal;
  safe_message = "the cluster went away";
  retryability = after_reconnect;
  scope = ErrorScope.request;
  correlation_id = "1";
  details = none;
}

fail_request-take_failure_example :
    (take_failure "request" (fail_request retains 5 9 (some "request") failure waiting).0).1 ≡ none
fail_request-take_failure_example =
    fail_request-take_failure retains 5 9 "request" failure
      (record { action = "metrics"; deadline_at_ms = none; cancelled = false }) waiting refl refl
      refl refl refl

abbrev watching : State
watching = record (in_phase ready []) {
  views = record (in_phase ready []).views { live_subscriptions = ("resource-0", 4) ∷ [] };
}

admitted : preflight_subscription_changes 1 1 watching ≡ ok tt
unfolding preflight_subscription_changes subscription_limit
admitted = refl

preflight-Succeeds_example :
    (and_then
      (end_all ("resource-0" ∷ []) watching)
      (λ t u. start_all request_id ((5, none) ∷ []) t)).1
    ≡ ok tt
preflight-Succeeds_example =
    preflight-Succeeds request_id ("resource-0" ∷ []) ((5, none) ∷ []) watching (omega arith)
      (refl, tt) admitted

-- A welcome after a loss asks for the state again.
rebuilt_frames :
    (apply_frame actions 0 0
      (unsequenced (welcome greeting))
      (in_phase authenticating [])).0.link.outbound
    ≡ request "request" "bootstrap" none ∷ []
unfolding apply_frame
rebuilt_frames = refl

-- An error of a subscription that no frame names is taken for one of the port-forward stream where
-- there is none, and the client does not survive it.
stray_error :
    (apply_frame actions 0 0
      (unsequenced (error_frame (record failure { scope = subscription })))
      (in_phase ready [])).1
    ≡ panic
unfolding apply_frame
stray_error = refl
