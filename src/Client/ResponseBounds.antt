-- ===== src/Client/ResponseBounds.antt =====
-- The bounds of a client's connection under the answers to its requests:
-- crates/k10s-ui/src/client/state.rs.
use k10s.Base.{ℕ, refl, ap, String, Bool, Option, arith, is_some, if_cases, if_some_cases}
use k10s.Base.Maps.{lookup, length-insert-le, length-remove-lt}
use k10s.Client.Errors.{ErrorFrame, is_after_reconnect, is_request_scope}
use k10s.Client.Link.{ClientState, ClientConfig}
use k10s.Client.Connection.{Done}
use k10s.Client.Requests.{answer, report_error, fail_pending, fail_request}
use k10s.Client.Bounds.{IsBounded, same_frames, transport_lost-IsBounded, transport_lost-IsBounded}

module _ {A R B S W G D : Type 0} {conf : ClientConfig} where
  pub answer-IsBounded :
      (id : String) (result : R) (s : ClientState A R B S W G D)
      → IsBounded conf s.link
      → IsBounded conf (answer id result s).0.link
  unfolding answer
  answer-IsBounded id result s h =
      let P = λ (r : Done (ClientState A R B S W G D) (Unit {0})). IsBounded conf r.0.link in
      if_some_cases P (lookup id s.link.pending)
        (λ entry e.
          let gone = length-remove-lt id s.link.pending (ap is_some e) in
          if_cases P entry.cancelled
            (λ _. same_frames s.link _ h refl refl (omega (arith, h.retained, gone)))
            (λ _.
              same_frames s.link _ h refl refl
                (omega (arith, h.retained, gone, length-insert-le id result s.link.completed))))
        (λ _. h)

  report_error-IsBounded :
      (now entropy : ℕ) (error : ErrorFrame) (s : ClientState A R B S W G D)
      → IsBounded conf s.link
      → IsBounded conf (report_error now entropy error s).0.link
  unfolding report_error
  report_error-IsBounded now entropy error s h =
      if_cases (λ (t : ClientState A R B S W G D). IsBounded conf t.link)
        (is_after_reconnect error.retryability) (λ _. transport_lost-IsBounded now entropy s h)
        (λ _. h)

  pub fail_request-IsBounded :
      (retains : A → Bool) (now entropy : ℕ) (request_id : Option String) (error : ErrorFrame)
      (s : ClientState A R B S W G D)
      → IsBounded conf s.link
      → IsBounded conf (fail_request retains now entropy request_id error s).0.link
  unfolding fail_request fail_pending
  fail_request-IsBounded retains now entropy request_id error s h =
      let P = λ (r : Done (ClientState A R B S W G D) (Unit {0})). IsBounded conf r.0.link in
      if_cases P (is_request_scope error.scope)
        (λ _.
          if_some_cases P request_id
            (λ id _.
              if_some_cases P (lookup id s.link.pending)
                (λ entry e.
                  let gone = length-remove-lt id s.link.pending (ap is_some e) in
                  if_cases P entry.cancelled
                    (λ _. same_frames s.link _ h refl refl (omega (arith, h.retained, gone)))
                    (λ _. report_error-IsBounded now entropy error _ (
                      if_cases (λ (t : ClientState A R B S W G D). IsBounded conf t.link)
                        (retains entry.action)
                        (λ _. same_frames s.link _ h refl refl (
                          omega (
                            arith,
                            h.retained,
                            gone,
                            length-insert-le id error s.link.completed_failures,
                          )))
                        (λ _. same_frames s.link _ h refl refl (omega (arith, h.retained, gone))))))
                (λ _. same_frames s.link _ h refl refl h.retained))
            (λ _. h))
        (λ _. report_error-IsBounded now entropy error s h)
