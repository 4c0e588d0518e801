-- ===== src/Client/SubscriptionBounds.antt =====
-- The bounds of a client's connection under its subscriptions:
-- crates/k10s-ui/src/client/state.rs.
use k10s.Base.{ℕ, ◌+◌, ◌-◌, ◌^◌, refl, String, Bool, not, Option, length, min, leb, if_cases}
use k10s.Base.Maps.{contains_key}
use k10s.Client.Rows.{ResourceWatchSpec}
use k10s.Client.Link.{ClientState, ClientConfig, is_ready, subscribe, unsubscribe}
use k10s.Client.Connection.{Done, with_link, enqueue_reliable}
use k10s.Client.Subscriptions.{
  subscription_limit, start_subscription, end_subscription, retire_subscription_state,
  refresh_server_validity,
}
use k10s.Client.Bounds.{IsBounded, same_frames, enqueue-IsBounded}
use k10s.Client.RequestBounds.{and_then-IsBounded}

module _ {A R B S W G D : Type 0} {conf : ClientConfig} where
  pub start_subscription-IsBounded :
      (format_id : ℕ → String) (selector : S) (spec : Option ResourceWatchSpec)
      (s : ClientState A R B S W G D)
      → IsBounded conf s.link
      → IsBounded conf (start_subscription format_id selector spec s).0.link
  unfolding start_subscription refresh_server_validity
  start_subscription-IsBounded format_id selector spec s h =
      let P = λ (r : Done (ClientState A R B S W G D) String). IsBounded conf r.0.link in
      if_cases P (not (is_ready s.link.phase)) (λ _. h)
        (λ _.
          if_cases P (leb (subscription_limit s.link.config) (length s.views.live_subscriptions))
            (λ _. h)
            (λ _.
              let t : ClientState A R B S W G D = with_link s (record s.link {
                next_subscription_id = min (s.link.next_subscription_id + 1) (2 ^ 128 - 1);
              }) in
              let b : IsBounded conf t.link = same_frames s.link t.link h refl refl h.retained in
              and_then-IsBounded
                (enqueue_reliable (subscribe (format_id s.link.next_subscription_id) selector) t) _
                (enqueue-IsBounded (subscribe (format_id s.link.next_subscription_id) selector) t b
                  (λ e. cc))
                (λ u x k. same_frames u.link _ k refl refl k.retained)))

  pub retire-IsBounded :
      (id : String) (s : ClientState A R B S W G D)
      → IsBounded conf s.link
      → IsBounded conf (retire_subscription_state id s).0.link
  unfolding retire_subscription_state refresh_server_validity
  retire-IsBounded id s h =
      if_cases (λ (r : ClientState A R B S W G D × Bool). IsBounded conf r.0.link)
        (contains_key id s.views.live_subscriptions)
        (λ _. same_frames s.link _ h refl refl h.retained) (λ _. h)

  pub end_subscription-IsBounded :
      (id : String) (s : ClientState A R B S W G D)
      → IsBounded conf s.link
      → IsBounded conf (end_subscription id s).0.link
  unfolding end_subscription retire_subscription_state refresh_server_validity
  end_subscription-IsBounded id s h =
      if_cases (λ (r : Done (ClientState A R B S W G D) Bool). IsBounded conf r.0.link)
        (not (contains_key id s.views.live_subscriptions)) (λ _. h)
        (λ _.
          and_then-IsBounded (enqueue_reliable (unsubscribe id) s) _
            (enqueue-IsBounded (unsubscribe id) s h (λ e. cc)) (λ u x k. retire-IsBounded id u k))
