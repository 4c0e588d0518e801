-- ===== src/Client/Preflight.antt =====
-- A batch of changes to the subscriptions of a client after its preflight:
-- crates/k10s-ui/src/client/state.rs.
use k10s.Base.{
  ℕ, suc, ◌+◌, ◌-◌, ◌^◌, ◌≤◌, ◌<◌, ◌≡◌, refl, ap, String, true, false, not, Option, List, [], ◌∷◌,
  arith, length, length-append, leb, ltb, min, if_cases, Reply, ok, err, panic,
}
use k10s.Base.Maps.{Map, contains_key, remove, length-insert-le, length-remove-lt}
use k10s.Client.Rows.{ResourceWatchSpec}
use k10s.Client.Errors.{ClientError}
use k10s.Client.Views.{retire}
use k10s.Client.Link.{
  ClientState, ClientFrame, subscribe, unsubscribe, is_ready, max_word, saturating_add,
}
use k10s.Client.Connection.{
  Done, and_then, with_link, push_frame, enqueue_reliable, ensure_outbound_slots,
}
use k10s.Client.Subscriptions.{
  subscription_limit, start_subscription, end_subscription, retire_subscription_state,
  refresh_server_validity, preflight_subscription_changes,
}

-- The names are keys, and distinct.
abbrev pub AllKeys : {V : Type 0} → List String → Map V → Type 0
AllKeys [] m = Unit
AllKeys (id ∷ ids) m = (contains_key id m ≡ true) × AllKeys ids (remove id m)

-- What follows a success is what the next call answers.
goes_on :
    {T X Y : Type 0} (r : Done T X) (next : T → X → Done T Y) {x : X}
    → r.1 ≡ ok x
    → and_then r next ≡ next r.0 x
goes_on (s, ok x) next e = let j : x ≡ _ = cc in ap (next s) j
goes_on (s, err f) next e = cc
goes_on (s, panic) next e = cc

module _ {A R B S W G D : Type 0} where
  -- The removals of a batch, up to the first that fails.
  unfoldable pub end_all :
      List String → ClientState A R B S W G D → Done (ClientState A R B S W G D) (Unit {0})
  end_all [] s = (s, ok tt)
  end_all (id ∷ ids) s = and_then (end_subscription id s) (λ t gone. end_all ids t)

module _ {A R B S W G D : Type 0} (format_id : ℕ → String) where
  -- The additions of a batch, up to the first that fails.
  unfoldable pub start_all :
      List (S × Option ResourceWatchSpec)
      → ClientState A R B S W G D
      → Done (ClientState A R B S W G D) (Unit {0})
  start_all [] s = (s, ok tt)
  start_all ((selector, spec) ∷ rest) s =
      and_then (start_subscription format_id selector spec s) (λ t id. start_all rest t)

  -- There is room for so many additions after so many removals.
  record HasRoom (removals additions : ℕ) (s : ClientState A R B S W G D) : Type 0 where
    pub phase : is_ready s.link.phase ≡ true
    pub wanted :
        length s.views.live_subscriptions + additions ≤ subscription_limit s.link.config + removals
    pub places : length s.link.outbound + (removals + additions) ≤ s.link.config.outbound_capacity
    pub sized : s.link.config.outbound_capacity < max_word

  pushes :
      (frame : ClientFrame A S) (removals additions : ℕ) (s : ClientState A R B S W G D)
      → HasRoom removals additions s
      → 0 < removals + additions
      → enqueue_reliable frame s ≡ (push_frame frame s, ok tt)
  unfolding enqueue_reliable ensure_outbound_slots
  pushes frame removals additions s h l =
      let c : leb (saturating_add (length s.link.outbound) 1) s.link.config.outbound_capacity
          ≡ true =
        ground (arith, h.places, h.sized) in
      rw c refl

  start-HasRoom :
      (selector : S) (spec : Option ResourceWatchSpec) (n : ℕ) (s : ClientState A R B S W G D)
      → HasRoom 0 (suc n) s
      → HasRoom 0 n (start_subscription format_id selector spec s).0
        × ((start_subscription format_id selector spec s).1
            ≡ ok (format_id s.link.next_subscription_id))
  unfolding start_subscription refresh_server_validity
  start-HasRoom selector spec n s h =
      let t : ClientState A R B S W G D = with_link s (record s.link {
        next_subscription_id = min (s.link.next_subscription_id + 1) (2 ^ 128 - 1);
      }) in
      let id = format_id s.link.next_subscription_id in
      let c : leb (subscription_limit s.link.config) (length s.views.live_subscriptions) ≡ false =
        ground (arith, h.wanted) in
      let room : HasRoom 0 (suc n) t = record {
        phase = h.phase;
        wanted = h.wanted;
        places = h.places;
        sized = h.sized;
      } in
      rw (h.phase, c, pushes (subscribe id selector) 0 (suc n) t room (omega arith))
        (
          record {
            phase = h.phase;
            wanted =
                omega (arith, h.wanted, length-insert-le id selector s.views.live_subscriptions);
            places =
                omega (arith, h.places, length-append s.link.outbound (subscribe id selector ∷ []));
            sized = h.sized;
          },
          refl,
        )

  start_all-ok :
      (additions : List (S × Option ResourceWatchSpec)) (s : ClientState A R B S W G D)
      → HasRoom 0 (length additions) s
      → (start_all additions s).1 ≡ ok tt
  unfolding start_all
  start_all-ok [] s h = refl
  start_all-ok ((selector, spec) ∷ rest) s h =
      let one = start-HasRoom selector spec (length rest) s h in
      rw (goes_on (start_subscription format_id selector spec s) (λ t id. start_all rest t) one.1)
        (start_all-ok rest _ one.0)

  end-HasRoom :
      (id : String) (n additions : ℕ) (s : ClientState A R B S W G D)
      → contains_key id s.views.live_subscriptions ≡ true
      → HasRoom (suc n) additions s
      → HasRoom n additions (end_subscription id s).0
        × ((end_subscription id s).1 ≡ ok true)
        × ((end_subscription id s).0.views.live_subscriptions
            ≡ remove id s.views.live_subscriptions)
  unfolding end_subscription retire_subscription_state refresh_server_validity retire
  end-HasRoom id n additions s l h =
      let frame : ClientFrame A S = unsubscribe id in
      rw (l, pushes frame (suc n) additions s h (omega arith), l)
        (
          record {
            phase = h.phase;
            wanted = omega (arith, h.wanted, length-remove-lt id s.views.live_subscriptions l);
            places = omega (arith, h.places, length-append s.link.outbound (frame ∷ []));
            sized = h.sized;
          },
          refl,
          refl,
        )

  end_all-HasRoom :
      (ids : List String) (additions : ℕ) (s : ClientState A R B S W G D)
      → AllKeys ids s.views.live_subscriptions
      → HasRoom (length ids) additions s
      → HasRoom 0 additions (end_all ids s).0 × ((end_all ids s).1 ≡ ok tt)
  unfolding end_all
  end_all-HasRoom [] additions s k h = (h, refl)
  end_all-HasRoom (id ∷ ids) additions s k h =
      let one = end-HasRoom id (length ids) additions s k.0 h in
      let live = one.2 in
      let r = end_all-HasRoom ids additions (end_subscription id s).0 (rw live k.1) one.0 in
      rw (goes_on (end_subscription id s) (λ t gone. end_all ids t) one.1) r

  preflight-HasRoom :
      (removals additions : ℕ) (s : ClientState A R B S W G D)
      → s.link.config.outbound_capacity < max_word
      → preflight_subscription_changes removals additions s ≡ ok tt
      → HasRoom removals additions s
  unfolding preflight_subscription_changes subscription_limit
  preflight-HasRoom removals additions s w =
      let P = λ (r : Reply ClientError (Unit {0})). r ≡ ok tt → HasRoom removals additions s in
      let limit = subscription_limit s.link.config in
      let within : limit ≤ s.link.config.outbound_capacity = ground arith in
      if_cases P (not (is_ready s.link.phase)) (λ c e. cc)
        (λ r.
          if_cases P (ltb (length s.views.live_subscriptions) removals) (λ c e. cc)
            (λ l.
              if_cases P
                (ltb limit
                  (saturating_add (length s.views.live_subscriptions - removals) additions))
                (λ c e. cc)
                (λ n.
                  if_cases P
                    (ltb s.link.config.outbound_capacity
                      (saturating_add (length s.link.outbound) (saturating_add removals additions)))
                    (λ c e. cc)
                    (λ f e. record {
                      phase = ground (arith, r);
                      wanted = ground (arith, l, n, within, w);
                      places = ground (arith, f, w);
                      sized = w;
                    }))))

  -- A batch whose preflight succeeds is carried out to its end, the removals of distinct desired
  -- subscriptions first, and then the additions: none of them is refused, where the capacity of the
  -- frames is below the greatest machine word.
  pub preflight-Succeeds :
      (ids : List String) (additions : List (S × Option ResourceWatchSpec))
      (s : ClientState A R B S W G D)
      → s.link.config.outbound_capacity < max_word
      → AllKeys ids s.views.live_subscriptions
      → preflight_subscription_changes (length ids) (length additions) s ≡ ok tt
      → (and_then (end_all ids s) (λ t u. start_all additions t)).1 ≡ ok tt
  preflight-Succeeds ids additions s w k p =
      let h =
        end_all-HasRoom ids (length additions) s k
          (preflight-HasRoom (length ids) (length additions) s w p) in
      rw (goes_on (end_all ids s) (λ t u. start_all additions t) h.1) (start_all-ok additions _ h.0)
