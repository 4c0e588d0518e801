-- ===== src/Client/Frames.antt =====
-- The frames of a server that are no responses: `apply_at` of crates/k10s-ui/src/client/state.rs, with
-- its test of the sequence. A payload is taken as it is after its decoding, and the updates of the
-- infrastructure and traffic caches are left out.
use k10s.Base.{
  ℕ, ◌^◌, String, Bool, true, false, not, ◌&&◌, ◌||◌, Option, none, some, min, ltb, ◌==◌, is_none,
  is_some, if◌then◌else◌, if_some, string_eq, ok, err, panic,
}
use k10s.Base.Maps.{contains_key, insert}
use k10s.Access.Hello.{protocol_major, protocol_minor}
use k10s.Client.Errors.{
  ErrorFrame, protocol, sequence_gap, authentication_rejected, incompatible_protocol,
  is_unauthorized, is_incompatible_version, is_subscription_scope,
}
use k10s.Client.Snapshots.{SnapshotFrame}
use k10s.Client.Views.{Applied, owned_subscription, on_delta, on_snapshot}
use k10s.Client.Lists.{ListDelta}
use k10s.Client.Operations.{OperationStatus, Mutations, record_view}
use k10s.Client.Forwards.{
  PortForwardSessionEvent, PortForwardListResponse, Forwards, apply_session_event,
  apply_port_forward_list,
}
use k10s.Client.Link.{
  ClientState, ready, web_gate, upgrade_required, is_authenticating, subscribe, saturating_add,
}
use k10s.Client.Connection.{Done, and_then, with_link, enqueue_reliable, queue_ack}
use k10s.Client.Requests.{fail_request}
use k10s.Client.Subscriptions.{refresh_server_validity}
use k10s.Client.Rebuild.{Actions, rebuild_server_state, begin_internal_port_forward_reconstruction}

pub data ResumeStatus : Type 0 where
  fresh resumed resync_required : ResumeStatus

abbrev pub is_fresh : ResumeStatus → Bool
is_fresh fresh = true
is_fresh resumed = false
is_fresh resync_required = false

abbrev pub is_resync_required : ResumeStatus → Bool
is_resync_required resync_required = true
is_resync_required fresh = false
is_resync_required resumed = false

pub record Welcome : Type 0 where
  pub major : ℕ
  pub minor : ℕ
  pub session_id : String
  pub server_instance_id : String
  pub resume_status : ResumeStatus

pub data ServerPayload (W G D : Type 0) : Type 0 where
  welcome : Welcome → ServerPayload W G D
  subscribed : ServerPayload W G D
  list_delta : ListDelta W → ServerPayload W G D
  snapshot_frame : SnapshotFrame W → ServerPayload W G D
  session_event : PortForwardSessionEvent D → ServerPayload W G D
  session_list : PortForwardListResponse D → ServerPayload W G D
  needs_resync : ServerPayload W G D
  error_frame : ErrorFrame → ServerPayload W G D
  operation_update : String → OperationStatus → Option G → ServerPayload W G D
  -- An event of an unknown kind, and a payload that the client has no arm for.
  other_event unexpected : ServerPayload W G D

pub record ServerFrame (W G D : Type 0) : Type 0 where
  pub request_id : Option String
  pub subscription_id : Option String
  pub sequence : Option ℕ
  pub payload : ServerPayload W G D

-- `==` of optional names.
abbrev pub same_option : Option String → Option String → Bool
same_option none none = true
same_option none (some b) = false
same_option (some a) none = false
same_option (some a) (some b) = string_eq.beq a b

-- The sequence that the client expects next.
unfoldable pub expected_sequence : Option ℕ → ℕ
expected_sequence last = if_some last (λ n. saturating_add n 1) 1

-- `u16::try_from(..)` of what the details name, or 0.
abbrev pub server_major : Option ℕ → ℕ
server_major details = if_some details (λ n. if ltb n (2 ^ 16) then n else 0) 0

-- The connection after a welcome.
abbrev pub welcomed :
    {A R B S W G D : Type 0} → Welcome → ClientState A R B S W G D → ClientState A R B S W G D
welcomed w s = with_link s (record s.link {
  phase = ready;
  negotiated_protocol_minor = some (min w.minor protocol_minor);
  last_acked_sequence = if is_fresh w.resume_status then none else s.link.last_acked_sequence;
  session_id = some w.session_id;
  server_instance_id = some w.server_instance_id;
  retry = none;
  retry_attempt = 0;
  reconnecting = false;
})

module _ {A R B S W G D : Type 0} (actions : Actions A S) where
  unfoldable pub on_welcome :
      Welcome → ClientState A R B S W G D → Done (ClientState A R B S W G D) (Unit {0})
  unfolding rebuild_server_state
  on_welcome w s =
      if not (is_authenticating s.link.phase)
      then (s, err (protocol "unexpected server frame"))
      else if not (w.major == protocol_major)
      then (
        with_link s (record s.link { phase = upgrade_required; retry = none; target = none }),
        err (incompatible_protocol protocol_major w.major),
      )
      else let t = welcomed w s in
        let rebuilt = rebuild_server_state actions 0 t in
        if s.link.reconnecting || is_resync_required w.resume_status then rebuilt else (t, ok tt)

  unfoldable pub on_subscribed :
      Option String → ClientState A R B S W G D → Done (ClientState A R B S W G D) (Unit {0})
  unfolding refresh_server_validity
  on_subscribed none s = (s, err (protocol "subscribed frame missing subscription ID"))
  on_subscribed (some id) s = (
    refresh_server_validity (record s {
      views = record s.views {
        active_subscriptions =
            if contains_key id s.views.live_subscriptions
            then insert id tt s.views.active_subscriptions
            else s.views.active_subscriptions;
      };
    }),
    ok tt,
  )

  -- The port-forward stream was refused: it is subscribed to again, and its sessions are listed.
  unfoldable pub resubscribe_port_forwards :
      ClientState A R B S W G D → Done (ClientState A R B S W G D) (Unit {0})
  unfolding begin_internal_port_forward_reconstruction
  resubscribe_port_forwards s =
      if_some s.link.port_forward_subscribed
        (λ id. and_then (enqueue_reliable (subscribe id actions.port_forward_sessions) s) (λ t u.
          let begun = begin_internal_port_forward_reconstruction actions t in
          if is_none t.link.port_forward_reconstruction
          then and_then begun (λ v x. (v, ok tt))
          else (t, ok tt)))
        (s, panic)

  unfoldable pub on_error :
      ℕ
      → ℕ
      → Option String
      → Option String
      → ErrorFrame
      → ClientState A R B S W G D
      → Done (ClientState A R B S W G D) (Unit {0})
  unfolding fail_request resubscribe_port_forwards
  on_error now entropy request_id subscription_id error s =
      if is_authenticating s.link.phase && is_unauthorized error.code
      then (
        with_link s
            (record s.link { phase = web_gate; retry = none; reconnecting = false; target = none }),
        err authentication_rejected,
      )
      else if is_authenticating s.link.phase && is_incompatible_version error.code
      then (
        with_link s (record s.link {
          phase = upgrade_required;
          retry = none;
          reconnecting = false;
          target = none;
        }),
        err (incompatible_protocol protocol_major (server_major error.details)),
      )
      else if is_subscription_scope error.scope
          && same_option subscription_id s.link.port_forward_subscribed
      then resubscribe_port_forwards s
      else fail_request actions.retains now entropy request_id error s

  abbrev pub on_views :
      ClientState A R B S W G D → Applied S W → Done (ClientState A R B S W G D) (Unit {0})
  on_views s (v, r) = (record s { views = v }, r)

  abbrev pub on_forwards :
      Bool → Forwards D → ClientState A R B S W G D → Done (ClientState A R B S W G D) (Unit {0})
  on_forwards owned f s = (record s { forwards = if owned then f else s.forwards }, ok tt)

  abbrev pub on_mutations :
      Option (Mutations G) → ClientState A R B S W G D → Done (ClientState A R B S W G D) (Unit {0})
  on_mutations none s = (s, panic)
  on_mutations (some m) s = (record s { mutations = m }, ok tt)

  -- Whether a frame is one of the port-forward stream, as the source tests it.
  abbrev pub is_port_forward : Option String → ClientState A R B S W G D → Bool
  is_port_forward subscription_id s =
      same_option s.link.port_forward_subscribed (owned_subscription subscription_id s.views)

  unfoldable pub apply_payload :
      ℕ
      → ℕ
      → ServerFrame W G D
      → ServerPayload W G D
      → ClientState A R B S W G D
      → Done (ClientState A R B S W G D) (Unit {0})
  unfolding on_welcome on_subscribed on_error owned_subscription rebuild_server_state
  apply_payload now entropy frame (welcome w) s = on_welcome w s
  apply_payload now entropy frame subscribed s = on_subscribed frame.subscription_id s
  apply_payload now entropy frame (list_delta delta) s =
      on_views s (on_delta frame.subscription_id delta s.views)
  apply_payload now entropy frame (snapshot_frame page) s =
      on_views s (on_snapshot frame.subscription_id page s.views)
  apply_payload now entropy frame (session_event event) s =
      on_forwards (is_port_forward frame.subscription_id s) (apply_session_event event s.forwards) s
  apply_payload now entropy frame (session_list response) s =
      on_forwards (is_port_forward frame.subscription_id s)
        (apply_port_forward_list response s.forwards).0 s
  apply_payload now entropy frame needs_resync s =
      rebuild_server_state actions (if is_some frame.sequence then 1 else 0) s
  apply_payload now entropy frame (error_frame error) s =
      on_error now entropy frame.request_id frame.subscription_id error s
  apply_payload now entropy frame (operation_update id status progress) s =
      on_mutations (record_view id status progress s.mutations) s
  apply_payload now entropy frame other_event s = (s, ok tt)
  apply_payload now entropy frame unexpected s = (s, err (protocol "unexpected server frame"))

  -- The acknowledgement of a sequenced frame after its payload.
  abbrev pub acknowledge :
      ℕ → ClientState A R B S W G D → Done (ClientState A R B S W G D) (Unit {0})
  acknowledge n s =
      and_then (queue_ack n s)
        (λ t u. (with_link t (record t.link { last_acked_sequence = some n }), ok tt))

  unfoldable pub apply_frame :
      ℕ
      → ℕ
      → ServerFrame W G D
      → ClientState A R B S W G D
      → Done (ClientState A R B S W G D) (Unit {0})
  unfolding apply_payload expected_sequence queue_ack rebuild_server_state
  apply_frame now entropy frame s =
      if_some frame.sequence
        (λ n.
          let expected = expected_sequence s.link.last_acked_sequence in
          if ltb expected n
          then and_then (rebuild_server_state actions 0 s)
              (λ t u. (t, err (sequence_gap expected n)))
          else if ltb n expected
          then queue_ack (if_some s.link.last_acked_sequence (λ last. last) 0) s
          else and_then (apply_payload now entropy frame frame.payload s) (λ t u. acknowledge n t))
        (apply_payload now entropy frame frame.payload s)
