-- ===== src/Client/Failures.antt =====
-- The failures that a client retains: crates/k10s-ui/src/client/state.rs.
use k10s.Base.{
  ℕ, ◌≡◌, refl, String, Bool, true, false, none, some, if◌then◌else◌, Bool-cases, inl, inr,
}
use k10s.Base.Maps.{lookup, lookup-insert_self}
use k10s.Client.Errors.{ErrorFrame, is_after_reconnect, is_request_scope}
use k10s.Client.Link.{ClientState, PendingEntry, is_final}
use k10s.Client.Connection.{transport_lost, invalidate_server_state}
use k10s.Client.Requests.{fail_request, fail_pending, report_error, take_failure}

module _ {A R B S W G D : Type 0} where
  -- The failure of a request that waits, and whose failures are retained, is there to be taken, but
  -- not where the error asks for a reconnect: the transport is then given up, in a phase that is not
  -- final, and the failure goes with what the client had of the server.
  pub fail_request-take_failure :
      (retains : A → Bool) (now entropy : ℕ) (id : String) (error : ErrorFrame)
      (entry : PendingEntry A) (s : ClientState A R B S W G D)
      → is_request_scope error.scope ≡ true
      → lookup id s.link.pending ≡ some entry
      → entry.cancelled ≡ false
      → retains entry.action ≡ true
      → is_final s.link.phase ≡ false
      → (take_failure id (fail_request retains now entropy (some id) error s).0).1
        ≡ (if is_after_reconnect error.retryability then none else some error)
  unfolding fail_request fail_pending report_error transport_lost invalidate_server_state
      take_failure
  fail_request-take_failure retains now entropy id error entry s c l n r f =
      elim (Bool-cases (is_after_reconnect error.retryability)) [
        | inl a ↦ rw (c, l, n, r, a, f) refl
        | inr a ↦ rw (c, l, n, r, a) (lookup-insert_self id error s.link.completed_failures)
      ]
