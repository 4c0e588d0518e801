-- ===== src/Client/Bounds.antt =====
-- The bounds of a client's connection: crates/k10s-ui/src/client/state.rs.
use k10s.Base.{
  ℕ, ◌+◌, ◌-◌, ◌^◌, ◌≤◌, ◌<◌, ◌≡◌, ◌⊎◌, ◌∙◌, refl, inl, inr, String, Bool, true, false, not, Option,
  none, [], ◌∷◌, ◌++◌, arith, min, length, length-append, count_where, count_where-append, leb, ltb,
  if_cases, if_some_cases, Bool-cases, ok,
}
use k10s.Base.Maps.{length-insert-le}
use k10s.Client.Link.{
  ClientState, ClientConfig, Link, ConnectTarget, ClientFrame, is_ack, max_word, saturating_add,
  is_ready, is_final, is_disconnected,
}
use k10s.Client.Connection.{
  Done, and_then, with_link, push_frame, fail_outbound_overload, ensure_outbound_slots,
  enqueue_reliable, queue_hello, connect, reset_connection, invalidate_server_state, transport_lost,
  reconnect, retry_if_due, explicit_close,
}
use k10s.Client.Requests.{begin_inner}

module _ {A R B S : Type 0} where
  -- How many requests are pending or completed, with a result or a failure.
  abbrev pub requests : Link A R B S → ℕ
  requests l = length l.pending + length l.completed + length l.completed_failures

  -- The bounds are those of the configuration, the frames are within theirs,
  -- one acknowledgement at most among them, and the requests are within theirs.
  pub record IsBounded (conf : ClientConfig) (l : Link A R B S) : Type 0 where
    pub same : l.config ≡ conf
    pub frames : length l.outbound ≤ l.config.outbound_capacity
    pub acks : count_where is_ack l.outbound ≤ 1
    pub retained : requests l ≤ l.config.request_capacity
    pub sized : l.config.outbound_capacity < max_word
    pub sized_too : l.config.request_capacity ≤ max_word

  -- A link with the same frames and the same bounds, and requests that fit.
  pub same_frames :
      {conf : ClientConfig} (k l : Link A R B S)
      → IsBounded conf k
      → l.config ≡ k.config
      → l.outbound ≡ k.outbound
      → requests l ≤ k.config.request_capacity
      → IsBounded conf l
  same_frames k l h c o r = record {
    same = c ∙ h.same;
    frames = rw (c, o) h.frames;
    acks = rw o h.acks;
    retained = rw c r;
    sized = rw c h.sized;
    sized_too = rw c h.sized_too;
  }

  -- A link without frames, and requests that fit.
  pub no_frames :
      {conf : ClientConfig} (k l : Link A R B S)
      → IsBounded conf k
      → l.config ≡ k.config
      → l.outbound ≡ []
      → requests l ≤ k.config.request_capacity
      → IsBounded conf l
  no_frames k l h c o r = record {
    same = c ∙ h.same;
    frames = rw (c, o) (omega arith);
    acks = rw o (omega arith);
    retained = rw c r;
    sized = rw c h.sized;
    sized_too = rw c h.sized_too;
  }

  pub pushed :
      {conf : ClientConfig} (k l : Link A R B S) (frame : ClientFrame A S)
      → IsBounded conf k
      → l.config ≡ k.config
      → l.outbound ≡ k.outbound ++ frame ∷ []
      → requests l ≤ k.config.request_capacity
      → length k.outbound < k.config.outbound_capacity
      → (is_ack frame ≡ true → count_where is_ack k.outbound ≡ 0)
      → IsBounded conf l
  pushed k l frame h c o r room new = record {
    same = c ∙ h.same;
    frames = rw (c, o) (omega (arith, length-append k.outbound (frame ∷ [])));
    acks = rw o (ground (arith, count_where-append is_ack k.outbound (frame ∷ []), h.acks, new));
    retained = rw c r;
    sized = rw c h.sized;
    sized_too = rw c h.sized_too;
  }

module _ {A R B S W G D : Type 0} where
  overloaded :
      {X : Type 0} (s : ClientState A R B S W G D)
      (next : ClientState A R B S W G D → Unit {0} → Done (ClientState A R B S W G D) X)
      → and_then (fail_outbound_overload s) next ≡ fail_outbound_overload s
  unfolding fail_outbound_overload
  overloaded s next = refl

module _ {A R B S W G D : Type 0} {conf : ClientConfig} where
  pub overload-IsBounded :
      (X : Type 0) (s : ClientState A R B S W G D)
      → IsBounded conf s.link
      → IsBounded conf (fail_outbound_overload {X = X} s).0.link
  unfolding fail_outbound_overload
  overload-IsBounded X s h = same_frames s.link _ h refl refl h.retained

  -- A frame is queued where there is a place, or the connection is given up.
  enqueue_cases :
      (frame : ClientFrame A S) (s : ClientState A R B S W G D)
      → IsBounded conf s.link
      → ((enqueue_reliable frame s ≡ (push_frame frame s, ok tt))
          × (length s.link.outbound < s.link.config.outbound_capacity))
        ⊎ (enqueue_reliable frame s ≡ fail_outbound_overload s)
  unfolding enqueue_reliable ensure_outbound_slots fail_outbound_overload
  enqueue_cases frame s h =
      elim (Bool-cases
        (leb (saturating_add (length s.link.outbound) 1) s.link.config.outbound_capacity)) [
          | inl c ↦ inl (rw c refl, ground (arith, h.sized))
          | inr c ↦ inr (rw c refl)
        ]

  -- What follows a frame that is queued, where it keeps the bounds.
  pub then-IsBounded :
      {X : Type 0} (frame : ClientFrame A S) (s : ClientState A R B S W G D)
      (next : ClientState A R B S W G D → Unit {0} → Done (ClientState A R B S W G D) X)
      → IsBounded conf s.link
      → (length s.link.outbound < s.link.config.outbound_capacity
          → IsBounded conf (next (push_frame frame s) tt).0.link)
      → IsBounded conf (and_then (enqueue_reliable frame s) next).0.link
  then-IsBounded {X} frame s next h g = elim (enqueue_cases frame s h) [
    | inl (e, l) ↦ rw e (g l)
    | inr e ↦ rw (e, overloaded s next) (overload-IsBounded X s h)
  ]

  pub enqueue-IsBounded :
      (frame : ClientFrame A S) (s : ClientState A R B S W G D)
      → IsBounded conf s.link
      → (is_ack frame ≡ true → count_where is_ack s.link.outbound ≡ 0)
      → IsBounded conf (enqueue_reliable frame s).0.link
  enqueue-IsBounded frame s h new = elim (enqueue_cases frame s h) [
    | inl (e, l) ↦ rw e (pushed s.link _ frame h refl refl h.retained l new)
    | inr e ↦ rw e (overload-IsBounded (Unit {0}) s h)
  ]

  pub connect-IsBounded :
      (target : ConnectTarget) (s : ClientState A R B S W G D)
      → IsBounded conf s.link
      → IsBounded conf (connect target s).0.link
  unfolding connect queue_hello invalidate_server_state reset_connection
  connect-IsBounded target s h =
      let t : ClientState A R B S W G D = invalidate_server_state (reset_connection target s) in
      let b : IsBounded conf t.link = no_frames s.link _ h refl refl (omega arith) in
      then-IsBounded _ t _ b (λ l. pushed t.link _ _ b refl refl b.retained l (λ e. cc))

  pub transport_lost-IsBounded :
      (now entropy : ℕ) (s : ClientState A R B S W G D)
      → IsBounded conf s.link
      → IsBounded conf (transport_lost now entropy s).link
  unfolding transport_lost invalidate_server_state
  transport_lost-IsBounded now entropy s h =
      if_cases (λ (t : ClientState A R B S W G D). IsBounded conf t.link) (is_final s.link.phase)
        (λ _. h) (λ _. no_frames s.link _ h refl refl (omega arith))

  pub explicit_close-IsBounded :
      (s : ClientState A R B S W G D)
      → IsBounded conf s.link
      → IsBounded conf (explicit_close s).link
  unfolding explicit_close
  explicit_close-IsBounded s h = no_frames s.link _ h refl refl (omega arith)

  pub retry_if_due-IsBounded :
      (now : ℕ) (s : ClientState A R B S W G D)
      → IsBounded conf s.link
      → IsBounded conf (retry_if_due now s).0.link
  unfolding retry_if_due reconnect queue_hello
  retry_if_due-IsBounded now s h =
      let P = λ (r : Done (ClientState A R B S W G D) Bool). IsBounded conf r.0.link in
      if_cases P (not (is_disconnected s.link.phase)) (λ _. h)
        (λ _.
          if_some_cases P s.link.retry
            (λ schedule _.
              if_cases P (ltb now schedule.retry_at_ms) (λ _. h)
                (λ _.
                  if_some_cases P s.link.target
                    (λ target _.
                      let t : ClientState A R B S W G D =
                        with_link s (record s.link { retry = none }) in
                      let b : IsBounded conf t.link = same_frames s.link _ h refl refl h.retained in
                      then-IsBounded _ t _ b
                        (λ l. pushed t.link _ _ b refl refl b.retained l (λ e. cc)))
                    (λ _. h)))
            (λ _. h))

  pub begin_inner-IsBounded :
      (request_id : ℕ → String) (action : A) (deadline relative : Option ℕ)
      (s : ClientState A R B S W G D)
      → IsBounded conf s.link
      → IsBounded conf (begin_inner request_id action deadline relative s).0.link
  unfolding begin_inner
  begin_inner-IsBounded request_id action deadline relative s h =
      let P = λ (r : Done (ClientState A R B S W G D) String). IsBounded conf r.0.link in
      if_cases P (not (is_ready s.link.phase)) (λ _. h)
        (λ _.
          if_cases P
            (leb s.link.config.request_capacity (
              saturating_add (saturating_add (length s.link.pending) (length s.link.completed))
                (length s.link.completed_failures)))
            (λ _. h)
            (λ c.
              let t : ClientState A R B S W G D = with_link s (record s.link {
                next_request_id = min (s.link.next_request_id + 1) (2 ^ 128 - 1);
              }) in
              let b : IsBounded conf t.link = same_frames s.link _ h refl refl h.retained in
              let room : requests s.link < s.link.config.request_capacity =
                ground (arith, h.sized_too) in
              then-IsBounded _ t _ b (λ l.
                pushed t.link _ _ b refl refl
                  (omega (
                    arith,
                    length-insert-le (request_id s.link.next_request_id)
                        (record { action = action; deadline_at_ms = deadline; cancelled = false })
                        s.link.pending,
                  ))
                  l (λ e. cc))))
