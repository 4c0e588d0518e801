-- ===== src/Client/FrameBounds.antt =====
-- The bounds of a client's connection under the frames of the server:
-- crates/k10s-ui/src/client/state.rs.
use k10s.Base.{
  ℕ, refl, String, not, ◌&&◌, ◌||◌, Option, none, some, List, [], ◌∷◌, arith, length, ltb, ◌==◌,
  is_none, if_cases, if_some_cases,
}
use k10s.Base.Maps.{Map}
use k10s.Access.Hello.{protocol_major}
use k10s.Client.Rows.{ResourceIdentity}
use k10s.Client.Errors.{ErrorFrame, is_unauthorized, is_incompatible_version, is_subscription_scope}
use k10s.Client.Operations.{nonterminal_operation_ids, record_view, Mutations}
use k10s.Client.Link.{ClientState, ClientConfig, is_authenticating, subscribe, saturating_add}
use k10s.Client.Connection.{Done, with_link, enqueue_reliable, invalidate_server_state, queue_ack}
use k10s.Client.Subscriptions.{refresh_server_validity}
use k10s.Client.Rebuild.{
  Actions, begin, refresh_targets, queue_unverified_target_refreshes, unverified_targets,
  resubscribe, is_empty, uncovered, with_spec, refresh_operations, request_state, request_required,
  rebuild_server_state, begin_internal_port_forward_reconstruction,
}
use k10s.Client.Frames.{
  is_resync_required, welcomed, Welcome, ServerPayload, welcome, subscribed, list_delta,
  snapshot_frame, session_event, session_list, needs_resync, error_frame, operation_update,
  other_event, unexpected, ServerFrame, same_option, expected_sequence, on_welcome, on_subscribed,
  resubscribe_port_forwards, on_error, on_mutations, apply_payload, apply_frame,
}
use k10s.Client.Bounds.{
  IsBounded, same_frames, no_frames, overload-IsBounded, enqueue-IsBounded, begin_inner-IsBounded,
}
use k10s.Client.RequestBounds.{and_then-IsBounded, queue_ack-IsBounded}
use k10s.Client.ResponseBounds.{fail_request-IsBounded}

module _ {A R B S W G D : Type 0} {conf : ClientConfig} (actions : Actions A S) where
  begin-IsBounded :
      (query : A) (s : ClientState A R B S W G D)
      → IsBounded conf s.link
      → IsBounded conf (begin actions query s).0.link
  unfolding begin
  begin-IsBounded query s h = begin_inner-IsBounded actions.request_id query none none s h

  refresh_targets-IsBounded :
      (groups : List (ResourceIdentity × List String)) (s : ClientState A R B S W G D)
      → IsBounded conf s.link
      → IsBounded conf (refresh_targets actions groups s).0.link
  unfolding refresh_targets
  refresh_targets-IsBounded [] s h = h
  refresh_targets-IsBounded ((target, keys) ∷ groups) s h =
      if_cases (λ (r : Done (ClientState A R B S W G D) (Unit {0})). IsBounded conf r.0.link)
        (is_empty (uncovered target s.mutations.target_refreshes keys))
        (λ _. refresh_targets-IsBounded groups s h)
        (λ _.
          and_then-IsBounded (begin actions (actions.resource_detail target) s) _
            (begin-IsBounded (actions.resource_detail target) s h)
            (λ t id k. refresh_targets-IsBounded groups _ k))

  resubscribe-IsBounded :
      (live : Map S) (s : ClientState A R B S W G D)
      → IsBounded conf s.link
      → IsBounded conf (resubscribe actions live s).0.link
  unfolding resubscribe
  resubscribe-IsBounded [] s h = h
  resubscribe-IsBounded ((id, selector) ∷ live) s h =
      let t : ClientState A R B S W G D = with_spec id (actions.resource_spec selector) s in
      let b : IsBounded conf t.link = h in
      and_then-IsBounded (enqueue_reliable (subscribe id selector) t) _
        (enqueue-IsBounded (subscribe id selector) t b (λ e. cc))
        (λ v u k. resubscribe-IsBounded live v k)

  request_state-IsBounded :
      (nonterminal : List String) (s : ClientState A R B S W G D)
      → IsBounded conf s.link
      → IsBounded conf (request_state actions nonterminal s).0.link
  unfolding request_state refresh_operations queue_unverified_target_refreshes
  request_state-IsBounded nonterminal s h =
      and_then-IsBounded (begin actions actions.bootstrap s) _
        (begin-IsBounded actions.bootstrap s h)
        (λ t id k.
          let u : ClientState A R B S W G D =
            with_link t (record t.link { rebuilt_bootstrap = some id }) in
          let b : IsBounded conf u.link = same_frames t.link u.link k refl refl k.retained in
          and_then-IsBounded (resubscribe actions u.views.live_subscriptions u) _
            (resubscribe-IsBounded u.views.live_subscriptions u b)
            (λ v x c.
              and_then-IsBounded (refresh_operations actions nonterminal v) _
                (if_cases
                  (λ (r : Done (ClientState A R B S W G D) (Unit {0})). IsBounded conf r.0.link)
                  (is_empty nonterminal) (λ _. c)
                  (λ _.
                    and_then-IsBounded (begin actions (actions.operation_status nonterminal) v) _
                      (begin-IsBounded (actions.operation_status nonterminal) v c) (λ y i d. d)))
                (λ w z d.
                  refresh_targets-IsBounded
                    (unverified_targets w.mutations.submitted_keys [] w.mutations) w d)))

  pub rebuild_server_state-IsBounded :
      (reserved : ℕ) (s : ClientState A R B S W G D)
      → IsBounded conf s.link
      → IsBounded conf (rebuild_server_state actions reserved s).0.link
  unfolding rebuild_server_state invalidate_server_state
  rebuild_server_state-IsBounded reserved s h =
      let P = λ (r : Done (ClientState A R B S W G D) (Unit {0})). IsBounded conf r.0.link in
      let required = request_required (nonterminal_operation_ids s.mutations) s.mutations in
      if_cases P (s.link.config.request_capacity == 0)
        (λ _. same_frames s.link _ h refl refl h.retained)
        (λ _.
          if_cases P
            (ltb s.link.config.outbound_capacity (
              saturating_add (saturating_add required (length s.views.live_subscriptions))
                reserved))
            (λ _. overload-IsBounded (Unit {0}) s h)
            (λ _.
              if_cases P (ltb s.link.config.request_capacity required)
                (λ _. no_frames s.link _ h refl refl h.retained)
                (λ _. request_state-IsBounded _ _ (no_frames s.link _ h refl refl (omega arith)))))

  welcome-IsBounded :
      (w : Welcome) (s : ClientState A R B S W G D)
      → IsBounded conf s.link
      → IsBounded conf (on_welcome actions w s).0.link
  unfolding on_welcome
  welcome-IsBounded w s h =
      let P = λ (r : Done (ClientState A R B S W G D) (Unit {0})). IsBounded conf r.0.link in
      if_cases P (not (is_authenticating s.link.phase)) (λ _. h)
        (λ _.
          if_cases P (not (w.major == protocol_major))
            (λ _. same_frames s.link _ h refl refl h.retained)
            (λ _.
              if_cases P (s.link.reconnecting || is_resync_required w.resume_status)
                (λ _.
                  rebuild_server_state-IsBounded 0 (welcomed w s)
                    (same_frames s.link _ h refl refl h.retained))
                (λ _. same_frames s.link _ h refl refl h.retained)))

  subscribed-IsBounded :
      (id : Option String) (s : ClientState A R B S W G D)
      → IsBounded conf s.link
      → IsBounded conf (on_subscribed actions id s).0.link
  unfolding on_subscribed refresh_server_validity
  subscribed-IsBounded none s h = h
  subscribed-IsBounded (some id) s h = same_frames s.link _ h refl refl h.retained

  resubscribe_port_forwards-IsBounded :
      (s : ClientState A R B S W G D)
      → IsBounded conf s.link
      → IsBounded conf (resubscribe_port_forwards actions s).0.link
  unfolding resubscribe_port_forwards begin_internal_port_forward_reconstruction
  resubscribe_port_forwards-IsBounded s h =
      let P = λ (r : Done (ClientState A R B S W G D) (Unit {0})). IsBounded conf r.0.link in
      if_some_cases P s.link.port_forward_subscribed
        (λ id e.
          and_then-IsBounded (enqueue_reliable (subscribe id actions.port_forward_sessions) s) _
            (enqueue-IsBounded (subscribe id actions.port_forward_sessions) s h (λ k. cc))
            (λ t u k.
              if_cases P (is_none t.link.port_forward_reconstruction)
                (λ _.
                  and_then-IsBounded (begin_internal_port_forward_reconstruction actions t) _
                    (and_then-IsBounded (begin actions actions.port_forward_list t) _
                      (begin-IsBounded actions.port_forward_list t k)
                      (λ v i b. same_frames v.link _ b refl refl b.retained))
                    (λ v x b. b))
                (λ _. k)))
        (λ e. h)

  error-IsBounded :
      (now entropy : ℕ) (request_id subscription_id : Option String) (error : ErrorFrame)
      (s : ClientState A R B S W G D)
      → IsBounded conf s.link
      → IsBounded conf (on_error actions now entropy request_id subscription_id error s).0.link
  unfolding on_error
  error-IsBounded now entropy request_id subscription_id error s h =
      let P = λ (r : Done (ClientState A R B S W G D) (Unit {0})). IsBounded conf r.0.link in
      if_cases P (is_authenticating s.link.phase && is_unauthorized error.code)
        (λ _. same_frames s.link _ h refl refl h.retained)
        (λ _.
          if_cases P (is_authenticating s.link.phase && is_incompatible_version error.code)
            (λ _. same_frames s.link _ h refl refl h.retained)
            (λ _.
              if_cases P
                (is_subscription_scope error.scope
                  && same_option subscription_id s.link.port_forward_subscribed)
                (λ _. resubscribe_port_forwards-IsBounded s h)
                (λ _. fail_request-IsBounded actions.retains now entropy request_id error s h)))

  on_mutations-IsBounded :
      (o : Option (Mutations G)) (s : ClientState A R B S W G D)
      → IsBounded conf s.link
      → IsBounded conf (on_mutations actions o s).0.link
  on_mutations-IsBounded none s h = h
  on_mutations-IsBounded (some m) s h = h

  payload-IsBounded :
      (now entropy : ℕ) (frame : ServerFrame W G D) (payload : ServerPayload W G D)
      (s : ClientState A R B S W G D)
      → IsBounded conf s.link
      → IsBounded conf (apply_payload actions now entropy frame payload s).0.link
  unfolding apply_payload
  payload-IsBounded now entropy frame (welcome w) s h = welcome-IsBounded w s h
  payload-IsBounded now entropy frame subscribed s h =
      subscribed-IsBounded frame.subscription_id s h
  payload-IsBounded now entropy frame (list_delta delta) s h = h
  payload-IsBounded now entropy frame (snapshot_frame page) s h = h
  payload-IsBounded now entropy frame (session_event event) s h = h
  payload-IsBounded now entropy frame (session_list response) s h = h
  payload-IsBounded now entropy frame other_event s h = h
  payload-IsBounded now entropy frame unexpected s h = h
  payload-IsBounded now entropy frame needs_resync s h = rebuild_server_state-IsBounded _ s h
  payload-IsBounded now entropy frame (error_frame error) s h =
      error-IsBounded now entropy frame.request_id frame.subscription_id error s h
  payload-IsBounded now entropy frame (operation_update id status progress) s h =
      on_mutations-IsBounded (record_view id status progress s.mutations) s h

  pub frame-IsBounded :
      (now entropy : ℕ) (frame : ServerFrame W G D) (s : ClientState A R B S W G D)
      → IsBounded conf s.link
      → IsBounded conf (apply_frame actions now entropy frame s).0.link
  unfolding apply_frame
  frame-IsBounded now entropy frame s h =
      let P = λ (r : Done (ClientState A R B S W G D) (Unit {0})). IsBounded conf r.0.link in
      if_some_cases P frame.sequence
        (λ n e.
          if_cases P (ltb (expected_sequence s.link.last_acked_sequence) n)
            (λ _.
              and_then-IsBounded (rebuild_server_state actions 0 s) _
                (rebuild_server_state-IsBounded 0 s h) (λ t u k. k))
            (λ _.
              if_cases P (ltb n (expected_sequence s.link.last_acked_sequence))
                (λ _. queue_ack-IsBounded _ s h)
                (λ _.
                  and_then-IsBounded (apply_payload actions now entropy frame frame.payload s) _
                    (payload-IsBounded now entropy frame frame.payload s h)
                    (λ t u k.
                      and_then-IsBounded (queue_ack n t) _ (queue_ack-IsBounded n t k)
                        (λ v x b. same_frames v.link _ b refl refl b.retained)))))
        (λ e. payload-IsBounded now entropy frame frame.payload s h)
