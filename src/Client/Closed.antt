-- ===== src/Client/Closed.antt =====
-- A closed connection of a client: crates/k10s-ui/src/client/state.rs.
use k10s.Base.{
  ℕ, ◌≡◌, refl, ◌==◌, ltb, not, ◌&&◌, is_none, String, Bool, true, false, Option, none, some, List,
  [], ◌∷◌, arith, any, length, if_cases, if_some_cases,
}
use k10s.Base.Maps.{contains_key}
use k10s.Client.Errors.{is_subscription_scope, ErrorFrame}
use k10s.Client.Link.{ClientState, is_authenticating, subscribe, unsubscribe, saturating_add}
use k10s.Client.Connection.{
  Done, enqueue_reliable, fail_outbound_overload, take_outbound, transport_lost, retry_if_due,
  explicit_close, queue_ack, invalidate_server_state,
}
use k10s.Client.Requests.{take, take_failure, begin_inner, answer}
use k10s.Client.Operations.{Mutations, nonterminal_operation_ids, record_view}
use k10s.Client.Subscriptions.{
  start_subscription, end_subscription, retire_subscription_state, refresh_server_validity,
}
use k10s.Client.Rebuild.{
  Actions, begin, request_state, request_required, rebuild_server_state,
  begin_internal_port_forward_reconstruction,
}
use k10s.Client.Frames.{
  ServerPayload, welcome, subscribed, list_delta, snapshot_frame, session_event, session_list,
  needs_resync, error_frame, operation_update, other_event, unexpected, ServerFrame, same_option,
  expected_sequence, on_welcome, on_subscribed, resubscribe_port_forwards, on_error, on_mutations,
  apply_payload, apply_frame,
}
use k10s.Client.LinkHistory.{
  LinkCall, connects, writes, closes, loses, retries, acknowledges, begins, cancels, expires,
  answers, subscribes, unsubscribes, retires, receives, takes, takes_failure, step, run,
}
use k10s.Client.ClosedCalls.{
  IsClosed, Stays, and_then-Stays, enqueue-Stays, cancel-Stays, expire-Stays, ack-Stays,
  answer-Stays, fails-Stays,
}

module _ {A R B S W G D : Type 0} (actions : Actions A S) where
  begin-Stays :
      (query : A) (s : ClientState A R B S W G D) → IsClosed s → Stays (begin actions query s)
  unfolding begin begin_inner
  begin-Stays query s h = rw h refl

  reconstruction-Stays :
      (s : ClientState A R B S W G D)
      → IsClosed s
      → Stays (begin_internal_port_forward_reconstruction actions s)
  unfolding begin_internal_port_forward_reconstruction
  reconstruction-Stays s h =
      and_then-Stays (begin actions actions.port_forward_list s) _
        (begin-Stays actions.port_forward_list s h) (λ t id k. k)

  -- A rebuild on a closed connection fails at its first request, if not before.
  state-Stays :
      (nonterminal : List String) (s : ClientState A R B S W G D)
      → IsClosed s
      → Stays (request_state actions nonterminal s)
  unfolding request_state begin begin_inner
  state-Stays nonterminal s h = rw h refl

  rebuild-Stays :
      (reserved : ℕ) (s : ClientState A R B S W G D)
      → IsClosed s
      → Stays (rebuild_server_state actions reserved s)
  unfolding rebuild_server_state fail_outbound_overload invalidate_server_state
  rebuild-Stays reserved s h =
      let P = λ (r : Done (ClientState A R B S W G D) (Unit {0})). IsClosed r.0 in
      let required = request_required (nonterminal_operation_ids s.mutations) s.mutations in
      if_cases P (s.link.config.request_capacity == 0) (λ _. refl)
        (λ _.
          if_cases P
            (ltb s.link.config.outbound_capacity (
              saturating_add (saturating_add required (length s.views.live_subscriptions))
                reserved))
            (λ _. refl)
            (λ _.
              if_cases P (ltb s.link.config.request_capacity required) (λ _. refl)
                (λ _. state-Stays (nonterminal_operation_ids s.mutations) _ h)))

  subscribed-Stays :
      (id : Option String) (s : ClientState A R B S W G D)
      → IsClosed s
      → Stays (on_subscribed actions id s)
  unfolding on_subscribed refresh_server_validity
  subscribed-Stays none s h = h
  subscribed-Stays (some id) s h = h

  resubscribes-Stays :
      (s : ClientState A R B S W G D) → IsClosed s → Stays (resubscribe_port_forwards actions s)
  unfolding resubscribe_port_forwards
  resubscribes-Stays s h =
      let P = λ (r : Done (ClientState A R B S W G D) (Unit {0})). IsClosed r.0 in
      if_some_cases P s.link.port_forward_subscribed
        (λ id e.
          and_then-Stays (enqueue_reliable (subscribe id actions.port_forward_sessions) s) _
            (enqueue-Stays (subscribe id actions.port_forward_sessions) s h)
            (λ t u k.
              if_cases P (is_none t.link.port_forward_reconstruction)
                (λ _.
                  and_then-Stays (begin_internal_port_forward_reconstruction actions t) _
                    (reconstruction-Stays t k) (λ v x j. j))
                (λ _. k)))
        (λ e. h)

  error-Stays :
      (now entropy : ℕ) (request_id subscription_id : Option String) (error : ErrorFrame)
      (s : ClientState A R B S W G D)
      → IsClosed s
      → Stays (on_error actions now entropy request_id subscription_id error s)
  unfolding on_error
  error-Stays now entropy request_id subscription_id error s h =
      let other : is_authenticating s.link.phase ≡ false = rw h refl in
      rw other (
        if_cases (λ (r : Done (ClientState A R B S W G D) (Unit {0})). IsClosed r.0)
          (is_subscription_scope error.scope
            && same_option subscription_id s.link.port_forward_subscribed)
          (λ _. resubscribes-Stays s h)
          (λ _. fails-Stays actions.retains now entropy request_id error s h))

  mutations-Stays :
      (o : Option (Mutations G)) (s : ClientState A R B S W G D)
      → IsClosed s
      → Stays (on_mutations actions o s)
  mutations-Stays none s h = h
  mutations-Stays (some m) s h = h

  payload-Stays :
      (now entropy : ℕ) (frame : ServerFrame W G D) (payload : ServerPayload W G D)
      (s : ClientState A R B S W G D)
      → IsClosed s
      → Stays (apply_payload actions now entropy frame payload s)
  unfolding apply_payload on_welcome
  payload-Stays now entropy frame (welcome w) s h = rw h refl
  payload-Stays now entropy frame subscribed s h = subscribed-Stays frame.subscription_id s h
  payload-Stays now entropy frame (list_delta delta) s h = h
  payload-Stays now entropy frame (snapshot_frame page) s h = h
  payload-Stays now entropy frame (session_event event) s h = h
  payload-Stays now entropy frame (session_list response) s h = h
  payload-Stays now entropy frame other_event s h = h
  payload-Stays now entropy frame unexpected s h = h
  payload-Stays now entropy frame needs_resync s h = rebuild-Stays _ s h
  payload-Stays now entropy frame (error_frame error) s h =
      error-Stays now entropy frame.request_id frame.subscription_id error s h
  payload-Stays now entropy frame (operation_update id status progress) s h =
      mutations-Stays (record_view id status progress s.mutations) s h

  frame-Stays :
      (now entropy : ℕ) (frame : ServerFrame W G D) (s : ClientState A R B S W G D)
      → IsClosed s
      → Stays (apply_frame actions now entropy frame s)
  unfolding apply_frame
  frame-Stays now entropy frame s h =
      let P = λ (r : Done (ClientState A R B S W G D) (Unit {0})). IsClosed r.0 in
      if_some_cases P frame.sequence
        (λ n e.
          if_cases P (ltb (expected_sequence s.link.last_acked_sequence) n)
            (λ _.
              and_then-Stays (rebuild_server_state actions 0 s) _ (rebuild-Stays 0 s h)
                (λ t u k. k))
            (λ _.
              if_cases P (ltb n (expected_sequence s.link.last_acked_sequence))
                (λ _. ack-Stays _ s h)
                (λ _.
                  and_then-Stays (apply_payload actions now entropy frame frame.payload s) _
                    (payload-Stays now entropy frame frame.payload s h)
                    (λ t u k. and_then-Stays (queue_ack n t) _ (ack-Stays n t k) (λ v x j. j)))))
        (λ e. payload-Stays now entropy frame frame.payload s h)

module _ {A R B S W G D : Type 0} where
  unsubscribe-Stays :
      (id : String) (s : ClientState A R B S W G D) → IsClosed s → Stays (end_subscription id s)
  unfolding end_subscription retire_subscription_state refresh_server_validity
  unsubscribe-Stays id s h =
      if_cases (λ (r : Done (ClientState A R B S W G D) Bool). IsClosed r.0)
        (not (contains_key id s.views.live_subscriptions)) (λ _. h)
        (λ _.
          and_then-Stays (enqueue_reliable (unsubscribe id) s) _
            (enqueue-Stays (unsubscribe id) s h)
            (λ t u k.
              if_cases (λ (r : ClientState A R B S W G D × Bool). IsClosed r.0)
                (contains_key id t.views.live_subscriptions) (λ _. k) (λ _. k)))

  retire-IsClosed :
      (id : String) (s : ClientState A R B S W G D)
      → IsClosed s
      → IsClosed (retire_subscription_state id s).0
  unfolding retire_subscription_state refresh_server_validity
  retire-IsClosed id s h =
      if_cases (λ (r : ClientState A R B S W G D × Bool). IsClosed r.0)
        (contains_key id s.views.live_subscriptions) (λ _. h) (λ _. h)

module _ {A R S W G D : Type 0} where
  abbrev pub is_connect : LinkCall A R S W G D → Bool
  is_connect (connects target) = true
  is_connect writes = false
  is_connect closes = false
  is_connect (loses now entropy) = false
  is_connect (retries now) = false
  is_connect (acknowledges n) = false
  is_connect (begins action deadline relative) = false
  is_connect (cancels id) = false
  is_connect (expires now) = false
  is_connect (answers id result) = false
  is_connect (subscribes format_id selector spec) = false
  is_connect (unsubscribes id) = false
  is_connect (retires id) = false
  is_connect (receives now entropy frame) = false
  is_connect (takes id) = false
  is_connect (takes_failure id) = false

module _ {A R B S W G D : Type 0} (actions : Actions A S) where
  step-IsClosed :
      (call : LinkCall A R S W G D) (s : ClientState A R B S W G D)
      → is_connect call ≡ false
      → IsClosed s
      → IsClosed (step actions call s)
  unfolding step take_outbound explicit_close transport_lost retry_if_due begin_inner answer take
      take_failure start_subscription
  step-IsClosed (connects target) s n h = cc
  step-IsClosed writes s n h = rw h refl
  step-IsClosed closes s n h = refl
  step-IsClosed (loses now entropy) s n h = rw h refl
  step-IsClosed (retries now) s n h = rw h refl
  step-IsClosed (acknowledges m) s n h = ack-Stays m s h
  step-IsClosed (begins action deadline relative) s n h = rw h refl
  step-IsClosed (cancels id) s n h = cancel-Stays id s h
  step-IsClosed (expires now) s n h = expire-Stays now s h
  step-IsClosed (answers id result) s n h = answer-Stays id result s h
  step-IsClosed (subscribes format_id selector spec) s n h = rw h refl
  step-IsClosed (unsubscribes id) s n h = unsubscribe-Stays id s h
  step-IsClosed (retires id) s n h = retire-IsClosed id s h
  step-IsClosed (receives now entropy frame) s n h = frame-Stays actions now entropy frame s h
  step-IsClosed (takes id) s n h = h
  step-IsClosed (takes_failure id) s n h = h

  -- A closed connection stays closed, and hands no frame to the transport, whatever is called on it
  -- but `connect`, and whatever frames still arrive, a welcome among them.
  pub run-IsClosed :
      (calls : List (LinkCall A R S W G D)) (s : ClientState A R B S W G D)
      → any is_connect calls ≡ false
      → IsClosed s
      → IsClosed (run actions calls s) × ((take_outbound (run actions calls s)).1 ≡ none)
  unfolding run take_outbound
  run-IsClosed [] s n h = (h, rw h refl)
  run-IsClosed (call ∷ calls) s n h =
      run-IsClosed calls (step actions call s) (ground (arith, n))
        (step-IsClosed call s (ground (arith, n)) h)
