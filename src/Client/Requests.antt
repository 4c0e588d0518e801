-- ===== src/Client/Requests.antt =====
-- The requests of a client, pending or completed, in crates/k10s-ui/src/client/state.rs: their start,
-- cancellation, deadlines and results.
use k10s.Base.{
  ℕ, ◌+◌, ◌-◌, ◌^◌, String, Bool, true, false, not, ◌&&◌, Option, none, some, List, [], ◌∷◌, min,
  length, leb, if◌then◌else◌, if_some, string_eq, ok, err, panic,
}
use k10s.Base.Maps.{Map, lookup, insert, remove}
use k10s.Client.Rows.{is_none_or}
use k10s.Client.Errors.{
  ErrorFrame, invalid_state, protocol, is_after_reconnect, is_request_scope,
  request_retention_limit, unknown_response, server,
}
use k10s.Client.Link.{ClientState, request, cancel_request, PendingEntry, is_ready, saturating_add}
use k10s.Client.Connection.{
  Done, and_then, with_link, ensure_outbound_slots, enqueue_reliable, transport_lost,
}

-- The requests that are due, and the mark on one of them: `expect` on a request that is gone.
unfoldable pub is_expired : {A : Type 0} → ℕ → PendingEntry A → Bool
is_expired now entry = not entry.cancelled && if_some entry.deadline_at_ms (λ at. leb at now) false

unfoldable pub expired_ids : {A : Type 0} → ℕ → Map (PendingEntry A) → List String
unfolding is_expired
expired_ids now [] = []
expired_ids now ((id, entry) ∷ m) =
    let rest = expired_ids now m in if is_expired now entry then id ∷ rest else rest

unfoldable pub mark_cancelled :
    {A : Type 0} → String → Map (PendingEntry A) → Option (Map (PendingEntry A))
mark_cancelled id m =
    if_some (lookup id m) (λ entry. some (insert id (record entry { cancelled = true }) m)) none

unfoldable pub mark_all :
    {A : Type 0} → List String → Map (PendingEntry A) → Option (Map (PendingEntry A))
unfolding mark_cancelled
mark_all [] m = some m
mark_all (id ∷ ids) m = if_some (mark_cancelled id m) (mark_all ids) none

-- A marker, but for the one with this name.
abbrev pub unless_named : String → Option String → Option String
unless_named id none = none
unless_named id (some named) = if string_eq.beq named id then none else some named

module _ {A R B S W G D : Type 0} where
  unfoldable pub take : String → ClientState A R B S W G D → ClientState A R B S W G D × Option R
  take id s = (
    with_link s (record s.link { completed = remove id s.link.completed }),
    lookup id s.link.completed,
  )

  unfoldable pub take_failure :
      String → ClientState A R B S W G D → ClientState A R B S W G D × Option ErrorFrame
  take_failure id s = (
    with_link s (record s.link { completed_failures = remove id s.link.completed_failures }),
    lookup id s.link.completed_failures,
  )

  unfoldable pub queue_cancel :
      String → ClientState A R B S W G D → Done (ClientState A R B S W G D) (Unit {0})
  unfolding enqueue_reliable
  queue_cancel id s = enqueue_reliable (cancel_request id) s

  abbrev pub marked :
      {X : Type 0}
      → Option (Map (PendingEntry A))
      → X
      → ClientState A R B S W G D
      → Done (ClientState A R B S W G D) X
  marked none x s = (s, panic)
  marked (some pending) x s = (with_link s (record s.link { pending = pending }), ok x)

  unfoldable pub cancel : String → ClientState A R B S W G D → Done (ClientState A R B S W G D) Bool
  unfolding queue_cancel mark_cancelled
  cancel id s =
      if is_none_or (lookup id s.link.pending) (λ entry. entry.cancelled)
      then (
        with_link s (record s.link { completed_failures = remove id s.link.completed_failures }),
        ok false,
      )
      else and_then (queue_cancel id s) (λ t u. marked (mark_cancelled id t.link.pending) true t)

  unfoldable pub queue_cancels :
      List String → ClientState A R B S W G D → Done (ClientState A R B S W G D) (Unit {0})
  unfolding queue_cancel
  queue_cancels [] s = (s, ok tt)
  queue_cancels (id ∷ ids) s = and_then (queue_cancel id s) (λ t u. queue_cancels ids t)

  unfoldable pub expire_deadlines :
      ℕ → ClientState A R B S W G D → Done (ClientState A R B S W G D) (List String)
  unfolding queue_cancels mark_all expired_ids ensure_outbound_slots
  expire_deadlines now s =
      let expired = expired_ids now s.link.pending in
      and_then (ensure_outbound_slots (length expired) s) (λ t u.
        and_then (queue_cancels expired t)
          (λ v w. marked (mark_all expired v.link.pending) expired v))

  unfoldable pub begin_inner :
      (ℕ → String)
      → A
      → Option ℕ
      → Option ℕ
      → ClientState A R B S W G D
      → Done (ClientState A R B S W G D) String
  unfolding enqueue_reliable
  begin_inner request_id action deadline_at_ms relative_deadline_ms s =
      if not (is_ready s.link.phase)
      then (s, err (invalid_state "client is not ready"))
      else if leb s.link.config.request_capacity (
          saturating_add (saturating_add (length s.link.pending) (length s.link.completed))
            (length s.link.completed_failures))
      then (s, err (request_retention_limit s.link.config.request_capacity))
      else let id = request_id s.link.next_request_id in
        and_then
          (enqueue_reliable (request id action relative_deadline_ms) (
            with_link s
              (record s.link { next_request_id = min (s.link.next_request_id + 1) (2 ^ 128 - 1) })))
          (λ t u. (
            with_link t (record t.link {
              pending =
                  insert id
                    (record { action = action; deadline_at_ms = deadline_at_ms; cancelled = false })
                    t.link.pending;
            }),
            ok id,
          ))

  -- The response to a request whose handling changes nothing else of the state: its result takes the
  -- place of the request.
  unfoldable pub answer :
      String → R → ClientState A R B S W G D → Done (ClientState A R B S W G D) (Unit {0})
  answer id result s =
      if_some (lookup id s.link.pending)
        (λ entry.
          if entry.cancelled
          then (with_link s (record s.link { pending = remove id s.link.pending }), ok tt)
          else (
            record s {
              link = record s.link {
                pending = remove id s.link.pending;
                completed = insert id result s.link.completed;
              };
              mutations = record s.mutations {
                operation_refresh = unless_named id s.mutations.operation_refresh;
              };
            },
            ok tt,
          ))
        (s, err (unknown_response id))

  -- The end of an error frame: the transport is given up where the error asks for it.
  unfoldable pub report_error :
      ℕ → ℕ → ErrorFrame → ClientState A R B S W G D → Done (ClientState A R B S W G D) (Unit {0})
  unfolding transport_lost
  report_error now entropy error s = (
    if is_after_reconnect error.retryability then transport_lost now entropy s else s,
    err (server error),
  )

  -- The failure of a request, which is retained for the actions that `retains` names.
  unfoldable pub fail_pending :
      (A → Bool)
      → ℕ
      → ℕ
      → String
      → ErrorFrame
      → ClientState A R B S W G D
      → Done (ClientState A R B S W G D) (Unit {0})
  unfolding report_error
  fail_pending retains now entropy id error s =
      let t = record s {
        mutations = record s.mutations {
          target_refreshes = remove id s.mutations.target_refreshes;
        };
      } in
      if_some (lookup id t.link.pending)
        (λ entry.
          let u = with_link t (record t.link {
            pending = remove id t.link.pending;
            port_forward_reconstruction = unless_named id t.link.port_forward_reconstruction;
            internal_port_forward_reconstruction =
                unless_named id t.link.internal_port_forward_reconstruction;
          }) in
          if entry.cancelled
          then (u, ok tt)
          else report_error now entropy error (
              if retains entry.action
              then with_link u
                  (record u.link { completed_failures = insert id error u.link.completed_failures })
              else u))
        (t, err (unknown_response id))

  -- The last arm for error frames: those that the arms before it leave.
  unfoldable pub fail_request :
      (A → Bool)
      → ℕ
      → ℕ
      → Option String
      → ErrorFrame
      → ClientState A R B S W G D
      → Done (ClientState A R B S W G D) (Unit {0})
  unfolding fail_pending report_error
  fail_request retains now entropy request_id error s =
      if is_request_scope error.scope
      then if_some request_id (λ id. fail_pending retains now entropy id error s)
          (s, err (protocol "request error missing request ID"))
      else report_error now entropy error s
