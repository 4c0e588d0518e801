-- ===== src/Client/Retry.antt =====
-- The reconnect timer of a client: crates/k10s-ui/src/client/state.rs.
use k10s.Base.{ℕ, ◌+◌, ◌≤◌, ◌≡◌, refl, Bool, true, false, some, [], ◌∷◌, arith, ltb, leb, ok}
use k10s.Client.Link.{
  ClientState, authenticating, ConnectTarget, hello, is_final, max_word, saturating_add,
}
use k10s.Client.Connection.{
  Done, transport_lost, retry_if_due, reconnect, queue_hello, enqueue_reliable,
  ensure_outbound_slots, invalidate_server_state, retry_ceiling, retry_delay,
}

ceiling_lem : (base cap attempt : ℕ) → retry_ceiling base cap attempt ≤ cap
unfolding retry_ceiling
ceiling_lem base cap attempt = omega arith

delay_lem : (ceiling entropy : ℕ) → entropy ≤ max_word → retry_delay ceiling entropy ≤ ceiling
unfolding retry_delay
delay_lem ceiling entropy h = ground (arith, h)

module _ {A R B S W G D : Type 0} where
  -- The state and the answer of a retry that has begun: the connection is authenticating, and a hello
  -- that names the last session is the only frame.
  pub record HasBegun (target : ConnectTarget) (s : ClientState A R B S W G D)
      (r : Done (ClientState A R B S W G D) Bool) : Type 0 where
    pub answer : r.1 ≡ ok true
    pub phase : r.0.link.phase ≡ authenticating
    pub frames :
        r.0.link.outbound
        ≡ hello s.link.config.capabilities target.access_token s.link.server_instance_id
            s.link.session_id s.link.last_acked_sequence
          ∷ []
    pub kept : r.0.link.target ≡ some target

  -- A connection that is lost is retried once the cap of the delay is over, whatever the entropy,
  -- where it has a target, was not given up, and has a place for one frame.
  pub lost-HasBegun :
      (now entropy later : ℕ) (target : ConnectTarget) (s : ClientState A R B S W G D)
      → is_final s.link.phase ≡ false
      → s.link.target ≡ some target
      → entropy ≤ max_word
      → 1 ≤ s.link.config.outbound_capacity
      → now + s.link.config.retry_cap_ms ≤ later
      → HasBegun target s (retry_if_due later (transport_lost now entropy s))
  unfolding transport_lost retry_if_due reconnect queue_hello enqueue_reliable ensure_outbound_slots
      invalidate_server_state
  lost-HasBegun now entropy later target s f t e c l =
      let ceiling =
        retry_ceiling s.link.config.retry_base_ms s.link.config.retry_cap_ms s.link.retry_attempt in
      let due : ltb later (saturating_add now (retry_delay ceiling entropy)) ≡ false = ground (
        arith,
        l,
        delay_lem ceiling entropy e,
        ceiling_lem s.link.config.retry_base_ms s.link.config.retry_cap_ms s.link.retry_attempt,
      ) in
      let place : leb 1 s.link.config.outbound_capacity ≡ true = ground (arith, c) in
      record {
        answer = rw (f, due, t, place) refl;
        phase = rw (f, due, t, place) refl;
        frames = rw (f, due, t, place) refl;
        kept = rw (f, due, t, place) refl;
      }
