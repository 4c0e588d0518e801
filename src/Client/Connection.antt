-- ===== src/Client/Connection.antt =====
-- The operations of a client's connection in crates/k10s-ui/src/client/state.rs. The encoding of a
-- payload, which may only fail on data that does not serialize, is taken to succeed.
use k10s.Base.{
  ℕ, ◌+◌, ◌-◌, ◌%◌, ◌^◌, Bool, true, false, not, Option, none, some, List, [], ◌∷◌, ◌++◌, any, min,
  length, leb, ltb, ◌==◌, if◌then◌else◌, if_some, string_eq, Reply, ok, err, panic,
}
use k10s.Client.Errors.{ClientError, outbound_overload}
use k10s.Client.Forwards.{no_forwards}
use k10s.Client.Link.{
  ClientState, Link, ClientPhase, disconnected, authenticating, closed, ConnectTarget, ClientFrame,
  hello, ack, is_closed, is_disconnected, is_final, is_ack, max_word, saturating_add,
  saturating_mul,
}

-- A result, with the state that it comes with.
abbrev pub Done : Type 0 → Type 0 → Type 0
Done T X = T × Reply ClientError X

-- `?` on a result.
abbrev pub and_then : {T X Y : Type 0} → Done T X → (T → X → Done T Y) → Done T Y
and_then (s, ok x) next = next s x
and_then (s, err e) next = (s, err e)
and_then (s, panic) next = (s, panic)

-- The exponential ceiling of a retry.
unfoldable pub retry_ceiling : ℕ → ℕ → ℕ → ℕ
retry_ceiling base cap attempt = min (saturating_mul base (2 ^ min attempt 63)) cap

unfoldable pub retry_delay : ℕ → ℕ → ℕ
retry_delay ceiling entropy = if ceiling == max_word then entropy else entropy % (ceiling + 1)

-- `iter_mut().find(..)` with the write, or nothing where there is no such frame.
unfoldable pub replace_ack :
    {A S : Type 0} → ClientFrame A S → List (ClientFrame A S) → List (ClientFrame A S)
replace_ack new [] = []
replace_ack new (frame ∷ frames) =
    let rest = replace_ack new frames in if is_ack frame then new ∷ frames else frame ∷ rest

module _ {A R B S W G D : Type 0} where
  abbrev pub with_link : ClientState A R B S W G D → Link A R B S → ClientState A R B S W G D
  with_link s l = record s { link = l }

  unfoldable pub fail_outbound_overload :
      {X : Type 0} → ClientState A R B S W G D → Done (ClientState A R B S W G D) X
  fail_outbound_overload s = (
    record s {
      link = record s.link {
        phase = closed;
        retry = none;
        reconnecting = false;
        target = none;
        server_state_invalid = true;
      };
      views = record s.views { active_subscriptions = [] };
    },
    err (outbound_overload s.link.config.outbound_capacity),
  )

  unfoldable pub ensure_outbound_slots :
      ℕ → ClientState A R B S W G D → Done (ClientState A R B S W G D) (Unit {0})
  unfolding fail_outbound_overload
  ensure_outbound_slots additional s =
      if leb (saturating_add (length s.link.outbound) additional) s.link.config.outbound_capacity
      then (s, ok tt)
      else fail_outbound_overload s

  abbrev pub push_frame : ClientFrame A S → ClientState A R B S W G D → ClientState A R B S W G D
  push_frame frame s = with_link s (record s.link { outbound = s.link.outbound ++ frame ∷ [] })

  unfoldable pub enqueue_reliable :
      ClientFrame A S → ClientState A R B S W G D → Done (ClientState A R B S W G D) (Unit {0})
  unfolding ensure_outbound_slots
  enqueue_reliable frame s =
      and_then (ensure_outbound_slots 1 s) (λ t u. (push_frame frame t, ok tt))

  unfoldable pub queue_hello :
      ConnectTarget → ClientState A R B S W G D → Done (ClientState A R B S W G D) (Unit {0})
  unfolding enqueue_reliable
  queue_hello target s =
      enqueue_reliable
        (hello s.link.config.capabilities target.access_token s.link.server_instance_id
          s.link.session_id s.link.last_acked_sequence)
        s

  unfoldable pub invalidate_server_state : ClientState A R B S W G D → ClientState A R B S W G D
  unfolding no_forwards
  invalidate_server_state s = record {
    link = record s.link {
      server_bootstrap = none;
      server_state_invalid = true;
      pending = [];
      completed = [];
      completed_failures = [];
      port_forward_reconstruction = none;
      internal_port_forward_reconstruction = none;
      rebuilt_bootstrap = none;
    };
    views = record s.views {
      active_subscriptions = [];
      snapshot_assemblies = [];
      completed_snapshots = [];
      resource_specs = [];
      resource_lists = [];
    };
    mutations = record s.mutations { target_refreshes = [] };
    forwards = no_forwards;
  }

  -- The fields that `connect` sets before it invalidates the rest.
  unfoldable pub reset_connection :
      ConnectTarget → ClientState A R B S W G D → ClientState A R B S W G D
  reset_connection target s = record s {
    link = record s.link {
      target = some target;
      retry_attempt = 0;
      retry = none;
      reconnecting = false;
      session_id = none;
      server_instance_id = none;
      negotiated_protocol_minor = none;
      last_acked_sequence = none;
      outbound = [];
      port_forward_subscribed = none;
    };
    views = record s.views { live_subscriptions = [] };
  }

  abbrev pub with_phase : ClientPhase → ClientState A R B S W G D → ClientState A R B S W G D
  with_phase phase s = with_link s (record s.link { phase = phase })

  unfoldable pub connect :
      ConnectTarget → ClientState A R B S W G D → Done (ClientState A R B S W G D) (Unit {0})
  unfolding queue_hello invalidate_server_state reset_connection
  connect target s =
      and_then (queue_hello target (invalidate_server_state (reset_connection target s)))
        (λ t u. (with_phase authenticating t, ok tt))

  -- `pop_front`.
  abbrev pub pop_front :
      List (ClientFrame A S)
      → ClientState A R B S W G D
      → ClientState A R B S W G D × Option (ClientFrame A S)
  pop_front [] s = (s, none)
  pop_front (frame ∷ frames) s = (with_link s (record s.link { outbound = frames }), some frame)

  unfoldable pub take_outbound :
      ClientState A R B S W G D → ClientState A R B S W G D × Option (ClientFrame A S)
  take_outbound s = if is_closed s.link.phase then (s, none) else pop_front s.link.outbound s

  unfoldable pub transport_lost : ℕ → ℕ → ClientState A R B S W G D → ClientState A R B S W G D
  unfolding invalidate_server_state retry_ceiling retry_delay
  transport_lost now entropy s =
      if is_final s.link.phase
      then s
      else let t = invalidate_server_state (
          with_link s
            (record s.link { phase = disconnected; reconnecting = true; outbound = [] })) in
        let ceiling =
          retry_ceiling t.link.config.retry_base_ms t.link.config.retry_cap_ms
            t.link.retry_attempt in
        with_link t (record t.link {
          retry = some (record {
            attempt = t.link.retry_attempt;
            max_delay_ms = ceiling;
            retry_at_ms = saturating_add now (retry_delay ceiling entropy);
          });
          retry_attempt = min (t.link.retry_attempt + 1) (2 ^ 32 - 1);
        })

  -- The reconnect to a target.
  unfoldable pub reconnect :
      ConnectTarget → ClientState A R B S W G D → Done (ClientState A R B S W G D) Bool
  unfolding queue_hello
  reconnect target s =
      and_then (queue_hello target (with_link s (record s.link { retry = none })))
        (λ t u. (with_phase authenticating t, ok true))

  unfoldable pub retry_if_due :
      ℕ → ClientState A R B S W G D → Done (ClientState A R B S W G D) Bool
  unfolding reconnect
  retry_if_due now s =
      if not (is_disconnected s.link.phase)
      then (s, ok false)
      else if_some s.link.retry
          (λ schedule.
            if ltb now schedule.retry_at_ms
            then (s, ok false)
            else if_some s.link.target (λ target. reconnect target s) (s, ok false))
          (s, ok false)

  unfoldable pub explicit_close : ClientState A R B S W G D → ClientState A R B S W G D
  explicit_close s = record s {
    link = record s.link {
      phase = closed;
      retry = none;
      reconnecting = false;
      pending = [];
      completed = [];
      completed_failures = [];
      outbound = [];
      target = none;
    };
    mutations = record {
      operations = [];
      operation_order = [];
      submitted_keys = [];
      submitted_targets = [];
      unverified_unknown_keys = [];
      target_refreshes = [];
      key_order = [];
      operation_refresh = none;
    };
  }

  unfoldable pub queue_ack :
      ℕ → ClientState A R B S W G D → Done (ClientState A R B S W G D) (Unit {0})
  unfolding enqueue_reliable replace_ack
  queue_ack sequence s =
      if any is_ack s.link.outbound
      then (
        with_link s (record s.link { outbound = replace_ack (ack sequence) s.link.outbound }),
        ok tt,
      )
      else enqueue_reliable (ack sequence) s
