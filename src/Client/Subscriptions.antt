-- ===== src/Client/Subscriptions.antt =====
-- The subscriptions of a client: crates/k10s-ui/src/client/state.rs. The selectors are of any type `S`,
-- and the text of a subscription ID is made of its number by the parameter `format_id`, `format!`.
-- Bootstrap status, infrastructure, traffic, and resource watches without an exact identity are
-- subscribed to alike; only the last have a `spec`.
use k10s.Base.{
  ℕ, ◌+◌, ◌-◌, ◌^◌, ◌||◌, String, Bool, true, false, not, Option, min, length, leb, ltb, ◌==◌,
  is_none, if◌then◌else◌, if_some, Reply, ok, err,
}
use k10s.Base.Maps.{contains_key, insert}
use k10s.Client.Rows.{ResourceWatchSpec}
use k10s.Client.Errors.{ClientError, invalid_state, live_subscription_limit, outbound_overload}
use k10s.Client.Views.{retire}
use k10s.Client.Link.{ClientState, ClientConfig, subscribe, unsubscribe, is_ready, saturating_add}
use k10s.Client.Connection.{Done, and_then, with_link, enqueue_reliable}

-- The limit of the desired subscriptions.
unfoldable pub subscription_limit : ClientConfig → ℕ
subscription_limit config = if config.request_capacity == 0 then 0 else config.outbound_capacity - 2

module _ {A R B S W G D : Type 0} where
  unfoldable pub refresh_server_validity : ClientState A R B S W G D → ClientState A R B S W G D
  refresh_server_validity s = with_link s (record s.link {
    server_state_invalid =
        is_none s.link.server_bootstrap
        || ltb (length s.views.active_subscriptions) (length s.views.live_subscriptions);
  })

  -- The desired subscription, and the spec of a resource watch.
  abbrev pub registered :
      String → S → Option ResourceWatchSpec → ClientState A R B S W G D → ClientState A R B S W G D
  registered id selector spec s = record s {
    views = record s.views {
      live_subscriptions = insert id selector s.views.live_subscriptions;
      resource_specs =
          if_some spec (λ watch. insert id watch s.views.resource_specs) s.views.resource_specs;
    };
  }

  unfoldable pub start_subscription :
      (ℕ → String)
      → S
      → Option ResourceWatchSpec
      → ClientState A R B S W G D
      → Done (ClientState A R B S W G D) String
  unfolding refresh_server_validity
  start_subscription format_id selector spec s =
      if not (is_ready s.link.phase)
      then (s, err (invalid_state "client is not ready"))
      else if leb (subscription_limit s.link.config) (length s.views.live_subscriptions)
      then (s, err (live_subscription_limit (subscription_limit s.link.config)))
      else let id = format_id s.link.next_subscription_id in
        and_then
          (enqueue_reliable (subscribe id selector) (
            with_link s (record s.link {
              next_subscription_id = min (s.link.next_subscription_id + 1) (2 ^ 128 - 1);
            })))
          (λ t u. (refresh_server_validity (registered id selector spec t), ok id))

  unfoldable pub retire_subscription_state :
      String → ClientState A R B S W G D → ClientState A R B S W G D × Bool
  unfolding refresh_server_validity
  retire_subscription_state id s =
      if contains_key id s.views.live_subscriptions
      then (refresh_server_validity (record s { views = (retire id s.views).0 }), true)
      else (s, false)

  unfoldable pub end_subscription :
      String → ClientState A R B S W G D → Done (ClientState A R B S W G D) Bool
  unfolding retire_subscription_state
  end_subscription id s =
      if not (contains_key id s.views.live_subscriptions)
      then (s, ok false)
      else and_then (enqueue_reliable (unsubscribe id) s)
          (λ t u. let r = retire_subscription_state id t in (r.0, ok r.1))

  unfoldable pub preflight_subscription_changes :
      ℕ → ℕ → ClientState A R B S W G D → Reply ClientError (Unit {0})
  preflight_subscription_changes removals additions s =
      if not (is_ready s.link.phase)
      then err (invalid_state "client is not ready")
      else if ltb (length s.views.live_subscriptions) removals
      then err (invalid_state "subscription preflight removes more than the desired set")
      else if ltb (subscription_limit s.link.config)
          (saturating_add (length s.views.live_subscriptions - removals) additions)
      then err (live_subscription_limit (subscription_limit s.link.config))
      else if ltb s.link.config.outbound_capacity
          (saturating_add (length s.link.outbound) (saturating_add removals additions))
      then err (outbound_overload s.link.config.outbound_capacity)
      else ok tt
