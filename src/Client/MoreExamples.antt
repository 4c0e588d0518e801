-- ===== src/Client/MoreExamples.antt =====
-- Concrete sessions and operations for crates/k10s-ui/src/client/state.rs.
use k10s.Base.{ℕ, ◌≡◌, refl, true, some, none, String, List, [], ◌∷◌, arith}
use k10s.Base.Maps.{lookup}
use k10s.Client.Forwards.{
  PortForwardSession, PortForwardListResponse, Forwards, is_listed, apply_port_forward_list,
}
use k10s.Client.ForwardOrder.{reconciled, listed_session, list-Reconciles}
use k10s.Client.ForwardHistory.{ForwardCall, responds, hears, relists, Rises, history-Rises}
use k10s.Client.Operations.{Mutations, running, succeeded, record_view}
use k10s.Client.Retention.{Recorded, record_view-Recorded}
use k10s.Client.MutationHistory.{
  MutationCall, accepts, updates, answers, mutate_all, Ends, mutate_all-Ends,
}

abbrev session : String → ℕ → PortForwardSession ℕ
session id revision = record { id = id; revision = revision; detail = 0 }

abbrev sessions : Forwards ℕ
sessions = record {
  port_forward_sessions = ("a", session "a" 3) ∷ ("b", session "b" 9) ∷ [];
  port_forward_list_revision = 2;
  port_forward_feed_revision = 7;
}

abbrev relisted : PortForwardListResponse ℕ
relisted = record { revision = 8; sessions = session "a" 8 ∷ session "c" 5 ∷ [] }

list-Reconciles_example :
    let t = apply_port_forward_list relisted sessions in
    (t.1 ≡ true)
    × (t.0.port_forward_list_revision ≡ 8)
    × (t.0.port_forward_feed_revision ≡ 8)
    × ((j : String)
        → lookup j t.0.port_forward_sessions
          ≡ reconciled 8
              (listed_session j relisted.sessions)
              (lookup j sessions.port_forward_sessions))
unfolding is_listed
list-Reconciles_example =
    list-Reconciles relisted sessions (refl, (refl, tt)) (refl, (refl, tt)) (omega arith)

abbrev forwarding : List (ForwardCall ℕ)
forwarding =
    responds (session "a" 4)
    ∷ hears (record { revision = 8; session = session "b" 8 })
    ∷ relists relisted
    ∷ []

history-Rises_example : Rises sessions forwarding
history-Rises_example =
    history-Rises sessions forwarding (record { marks = omega arith; is_map = (refl, (refl, tt)) })

abbrev idle : Mutations ℕ
idle = record {
  operations = [];
  operation_order = [];
  submitted_keys = [];
  submitted_targets = [];
  unverified_unknown_keys = [];
  target_refreshes = [];
  key_order = [];
  operation_refresh = none;
}

abbrev mutations : List (MutationCall ℕ)
mutations =
    accepts "key" "op-1" none
    ∷ updates "op-1" running (some 5)
    ∷ answers (record { operation_id = "op-1"; status = succeeded; progress = none } ∷ [])
    ∷ []

mutate_all-Ends_example : Ends (mutate_all mutations idle)
mutate_all-Ends_example =
    mutate_all-Ends mutations idle (record { within = omega arith; orders = λ id. refl })
      (record { within = omega arith; orders = λ id. refl; distinct = tt })

record_view-Recorded_example :
    Recorded "op-1"
      (record { status = running; progress = some 5 })
      idle
      (record_view "op-1" running (some 5) idle)
record_view-Recorded_example =
    record_view-Recorded "op-1" running (some 5) idle
      (record { within = omega arith; orders = λ id. refl })
