-- ===== src/Client/LinkHistory.antt =====
-- The calls of a client's connection as steps: crates/k10s-ui/src/client/state.rs.
use k10s.Base.{ℕ, String, Option, List, [], ◌∷◌}
use k10s.Client.Rows.{ResourceWatchSpec}
use k10s.Client.Link.{ClientState, ClientConfig, ConnectTarget}
use k10s.Client.Connection.{
  connect, take_outbound, transport_lost, retry_if_due, explicit_close, queue_ack,
}
use k10s.Client.Requests.{take, take_failure, cancel, expire_deadlines, begin_inner, answer}
use k10s.Client.Subscriptions.{start_subscription, end_subscription, retire_subscription_state}
use k10s.Client.Rebuild.{Actions}
use k10s.Client.Frames.{ServerFrame, apply_frame}
use k10s.Client.FrameBounds.{frame-IsBounded}
use k10s.Client.SubscriptionBounds.{
  start_subscription-IsBounded, end_subscription-IsBounded, retire-IsBounded,
}
use k10s.Client.Bounds.{
  IsBounded, connect-IsBounded, transport_lost-IsBounded, explicit_close-IsBounded,
  retry_if_due-IsBounded, begin_inner-IsBounded,
}
use k10s.Client.RequestBounds.{
  queue_ack-IsBounded, take-IsBounded, take_failure-IsBounded, take_outbound-IsBounded,
  cancel-IsBounded, expire_deadlines-IsBounded,
}
use k10s.Client.ResponseBounds.{answer-IsBounded}

pub data LinkCall (A R S W G D : Type 0) : Type 0 where
  connects : ConnectTarget → LinkCall A R S W G D
  writes closes : LinkCall A R S W G D
  loses : ℕ → ℕ → LinkCall A R S W G D
  retries : ℕ → LinkCall A R S W G D
  acknowledges : ℕ → LinkCall A R S W G D
  begins : A → Option ℕ → Option ℕ → LinkCall A R S W G D
  cancels : String → LinkCall A R S W G D
  expires : ℕ → LinkCall A R S W G D
  answers : String → R → LinkCall A R S W G D
  subscribes : (ℕ → String) → S → Option ResourceWatchSpec → LinkCall A R S W G D
  unsubscribes : String → LinkCall A R S W G D
  retires : String → LinkCall A R S W G D
  -- A frame of the server, at a time, with an entropy.
  receives : ℕ → ℕ → ServerFrame W G D → LinkCall A R S W G D
  takes : String → LinkCall A R S W G D
  takes_failure : String → LinkCall A R S W G D

module _ {A R B S W G D : Type 0} (actions : Actions A S) where
  unfoldable pub step : LinkCall A R S W G D → ClientState A R B S W G D → ClientState A R B S W G D
  step (connects target) s = (connect target s).0
  step writes s = (take_outbound s).0
  step closes s = explicit_close s
  step (loses now entropy) s = transport_lost now entropy s
  step (retries now) s = (retry_if_due now s).0
  step (acknowledges n) s = (queue_ack n s).0
  step (begins action deadline relative) s =
      (begin_inner actions.request_id action deadline relative s).0
  step (cancels id) s = (cancel id s).0
  step (expires now) s = (expire_deadlines now s).0
  step (answers id result) s = (answer id result s).0
  step (subscribes format_id selector spec) s = (start_subscription format_id selector spec s).0
  step (unsubscribes id) s = (end_subscription id s).0
  step (retires id) s = (retire_subscription_state id s).0
  step (receives now entropy frame) s = (apply_frame actions now entropy frame s).0
  step (takes id) s = (take id s).0
  step (takes_failure id) s = (take_failure id s).0

  unfoldable pub run :
      List (LinkCall A R S W G D) → ClientState A R B S W G D → ClientState A R B S W G D
  unfolding step
  run [] s = s
  run (call ∷ calls) s = run calls (step call s)

  step-IsBounded :
      {conf : ClientConfig} (call : LinkCall A R S W G D) (s : ClientState A R B S W G D)
      → IsBounded conf s.link
      → IsBounded conf (step call s).link
  unfolding step
  step-IsBounded (connects target) s h = connect-IsBounded target s h
  step-IsBounded writes s h = take_outbound-IsBounded s h
  step-IsBounded closes s h = explicit_close-IsBounded s h
  step-IsBounded (loses now entropy) s h = transport_lost-IsBounded now entropy s h
  step-IsBounded (retries now) s h = retry_if_due-IsBounded now s h
  step-IsBounded (acknowledges n) s h = queue_ack-IsBounded n s h
  step-IsBounded (begins action deadline relative) s h =
      begin_inner-IsBounded actions.request_id action deadline relative s h
  step-IsBounded (cancels id) s h = cancel-IsBounded id s h
  step-IsBounded (expires now) s h = expire_deadlines-IsBounded now s h
  step-IsBounded (answers id result) s h = answer-IsBounded id result s h
  step-IsBounded (subscribes format_id selector spec) s h =
      start_subscription-IsBounded format_id selector spec s h
  step-IsBounded (unsubscribes id) s h = end_subscription-IsBounded id s h
  step-IsBounded (retires id) s h = retire-IsBounded id s h
  step-IsBounded (receives now entropy frame) s h = frame-IsBounded actions now entropy frame s h
  step-IsBounded (takes id) s h = take-IsBounded id s h
  step-IsBounded (takes_failure id) s h = take_failure-IsBounded id s h

  -- Whatever the calls on a client and whatever the frames that it receives, resyncs and rejected
  -- subscriptions among them: its frames stay within the configured capacity, with one acknowledgement
  -- at most, and its requests, pending or completed, within theirs, where they are so at the start, the
  -- first capacity is below the greatest machine word, and the second not above.
  pub run-IsBounded :
      {conf : ClientConfig} (calls : List (LinkCall A R S W G D)) (s : ClientState A R B S W G D)
      → IsBounded conf s.link
      → IsBounded conf (run calls s).link
  unfolding run
  run-IsBounded [] s h = h
  run-IsBounded (call ∷ calls) s h = run-IsBounded calls (step call s) (step-IsBounded call s h)
