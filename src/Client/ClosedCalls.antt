-- ===== src/Client/ClosedCalls.antt =====
-- The calls on a closed connection of a client: crates/k10s-ui/src/client/state.rs.
use k10s.Base.{
  ℕ, ◌≡◌, refl, String, Bool, true, Option, none, some, List, [], ◌∷◌, any, length, leb, if_cases,
  if_some_cases, ok, err, panic,
}
use k10s.Base.Maps.{Map, lookup}
use k10s.Client.Rows.{is_none_or}
use k10s.Client.Errors.{ErrorFrame, is_after_reconnect, is_request_scope}
use k10s.Client.Link.{
  ClientState, closed, ClientFrame, cancel_request, is_ack, ack, PendingEntry, saturating_add,
}
use k10s.Client.Connection.{
  Done, and_then, enqueue_reliable, ensure_outbound_slots, fail_outbound_overload, transport_lost,
  queue_ack,
}
use k10s.Client.Requests.{
  queue_cancel, queue_cancels, cancel, expire_deadlines, answer, report_error, fail_pending,
  fail_request, marked, mark_cancelled, mark_all, expired_ids,
}

module _ {A R B S W G D : Type 0} where
  -- The client has given up its connection.
  abbrev pub IsClosed : ClientState A R B S W G D → Type 0
  IsClosed s = s.link.phase ≡ closed

  abbrev pub Stays : {X : Type 0} → Done (ClientState A R B S W G D) X → Type 0
  Stays r = IsClosed r.0

  slots-Stays :
      (n : ℕ) (s : ClientState A R B S W G D) → IsClosed s → Stays (ensure_outbound_slots n s)
  unfolding ensure_outbound_slots fail_outbound_overload
  slots-Stays n s h =
      if_cases (λ (r : Done (ClientState A R B S W G D) (Unit {0})). IsClosed r.0)
        (leb (saturating_add (length s.link.outbound) n) s.link.config.outbound_capacity) (λ _. h)
        (λ _. refl)

  pub and_then-Stays :
      {X Y : Type 0} (r : Done (ClientState A R B S W G D) X)
      (next : ClientState A R B S W G D → X → Done (ClientState A R B S W G D) Y)
      → Stays r
      → ((t : ClientState A R B S W G D) (x : X) → IsClosed t → Stays (next t x))
      → Stays (and_then r next)
  and_then-Stays (s, ok x) next h g = g s x h
  and_then-Stays (s, err e) next h g = h
  and_then-Stays (s, panic) next h g = h

  pub enqueue-Stays :
      (frame : ClientFrame A S) (s : ClientState A R B S W G D)
      → IsClosed s
      → Stays (enqueue_reliable frame s)
  unfolding enqueue_reliable
  enqueue-Stays frame s h =
      and_then-Stays (ensure_outbound_slots 1 s) _ (slots-Stays 1 s h) (λ t u k. k)

  cancels-Stays :
      (ids : List String) (s : ClientState A R B S W G D) → IsClosed s → Stays (queue_cancels ids s)
  unfolding queue_cancels queue_cancel
  cancels-Stays [] s h = h
  cancels-Stays (id ∷ ids) s h =
      and_then-Stays (enqueue_reliable (cancel_request id) s) _
        (enqueue-Stays (cancel_request id) s h) (λ t u k. cancels-Stays ids t k)

  marked-Stays :
      {X : Type 0} (o : Option (Map (PendingEntry A))) (x : X) (s : ClientState A R B S W G D)
      → IsClosed s
      → Stays (marked o x s)
  marked-Stays none x s h = h
  marked-Stays (some n) x s h = h

  pub cancel-Stays :
      (id : String) (s : ClientState A R B S W G D) → IsClosed s → Stays (cancel id s)
  unfolding cancel queue_cancel
  cancel-Stays id s h =
      if_cases (λ (r : Done (ClientState A R B S W G D) Bool). IsClosed r.0)
        (is_none_or (lookup id s.link.pending) (λ entry. entry.cancelled)) (λ _. h)
        (λ _.
          and_then-Stays (enqueue_reliable (cancel_request id) s) _
            (enqueue-Stays (cancel_request id) s h)
            (λ t u k. marked-Stays (mark_cancelled id t.link.pending) true t k))

  pub expire-Stays :
      (now : ℕ) (s : ClientState A R B S W G D) → IsClosed s → Stays (expire_deadlines now s)
  unfolding expire_deadlines
  expire-Stays now s h =
      let ids = expired_ids now s.link.pending in
      and_then-Stays (ensure_outbound_slots (length ids) s) _ (slots-Stays (length ids) s h)
        (λ t u k.
          and_then-Stays (queue_cancels ids t) _ (cancels-Stays ids t k)
            (λ v w j. marked-Stays (mark_all ids v.link.pending) ids v j))

  pub ack-Stays : (n : ℕ) (s : ClientState A R B S W G D) → IsClosed s → Stays (queue_ack n s)
  unfolding queue_ack
  ack-Stays n s h =
      if_cases (λ (r : Done (ClientState A R B S W G D) (Unit {0})). IsClosed r.0)
        (any is_ack s.link.outbound) (λ _. h) (λ _. enqueue-Stays (ack n) s h)

  lost-IsClosed :
      (now entropy : ℕ) (s : ClientState A R B S W G D)
      → IsClosed s
      → IsClosed (transport_lost now entropy s)
  unfolding transport_lost
  lost-IsClosed now entropy s h = rw h refl

  pub answer-Stays :
      (id : String) (result : R) (s : ClientState A R B S W G D)
      → IsClosed s
      → Stays (answer id result s)
  unfolding answer
  answer-Stays id result s h =
      let P = λ (r : Done (ClientState A R B S W G D) (Unit {0})). IsClosed r.0 in
      if_some_cases P (lookup id s.link.pending)
        (λ entry e. if_cases P entry.cancelled (λ _. h) (λ _. h)) (λ _. h)

  report-Stays :
      (now entropy : ℕ) (error : ErrorFrame) (s : ClientState A R B S W G D)
      → IsClosed s
      → Stays (report_error now entropy error s)
  unfolding report_error
  report-Stays now entropy error s h =
      if_cases IsClosed (is_after_reconnect error.retryability) (λ _. lost-IsClosed now entropy s h)
        (λ _. h)

  pub fails-Stays :
      (retains : A → Bool) (now entropy : ℕ) (request_id : Option String) (error : ErrorFrame)
      (s : ClientState A R B S W G D)
      → IsClosed s
      → Stays (fail_request retains now entropy request_id error s)
  unfolding fail_request fail_pending
  fails-Stays retains now entropy request_id error s h =
      let P = λ (r : Done (ClientState A R B S W G D) (Unit {0})). IsClosed r.0 in
      if_cases P (is_request_scope error.scope)
        (λ _.
          if_some_cases P request_id
            (λ id _.
              if_some_cases P (lookup id s.link.pending)
                (λ entry e.
                  if_cases P entry.cancelled (λ _. h)
                    (λ _.
                      report-Stays now entropy error _
                        (if_cases IsClosed (retains entry.action) (λ _. h) (λ _. h))))
                (λ _. h))
            (λ _. h))
        (λ _. report-Stays now entropy error s h)
