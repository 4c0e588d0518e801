-- ===== src/Operation/Examples.antt =====
-- Concrete histories of the engine of crates/k10s-backend/src/operation/state.rs.
use k10s.Base.{ℕ, String, ◌≡◌, ◌≢◌, refl, List, [], ◌∷◌, some, none, err, panic, arith, string_eq}
use text.Mathlib.TextEquality.{eq_iff}
use k10s.Operation.Idempotency.{Entry}
use k10s.Operation.Records.{running, outcome_unknown, is_terminal, Retained}
use k10s.Operation.Engine.{Inner, with_limits, accept_scoped, replay, reused, look_up}
use k10s.Operation.Consistency.{IsConsistent, accept_scoped-IsConsistent}
use k10s.Operation.History.{
  Call, accepts, replays, transitions, refreshes, reads, subscribes, run, history-IsConsistent,
  with_limits-IsConsistent,
}
use k10s.Operation.Replay.{resubmit_live}

abbrev format_id : String → ℕ → String
format_id instance_id n = "i:op-000001"

abbrev fresh : Inner
fresh = with_limits "i" 2 2 100

abbrev pod_delete : Retained
pod_delete = record {
  operation = record { id = "i:op-000001"; state = running; progress = some (1, 3); detail = none };
  scope = "pod/a";
  updated_at = 5;
}

abbrev delete_key : Entry
delete_key = record { operation_id = "i:op-000001"; fingerprint = "delete pod/a"; accepted_at = 3 }

abbrev busy : Inner
busy = record {
  instance_id = "i";
  next_id = 2;
  operations = ("i:op-000001", pod_delete) ∷ [];
  order = "i:op-000001" ∷ [];
  operation_capacity = 2;
  ttl = 100;
  idempotency = record {
    entries = ("key", delete_key) ∷ [];
    order = "key" ∷ [];
    capacity = 2;
    ttl = 100;
  };
  watchers = [];
}

abbrev history : List (ℕ × Call)
history =
    (1, accepts "key" "delete pod/a" "pod/a")
    ∷ (2, transitions "i:op-000001" running none none)
    ∷ (3, transitions "i:op-000001" outcome_unknown none none)
    ∷ (4, refreshes "pod/a")
    ∷ (200, replays "key" "delete pod/a")
    ∷ (201, reads ("i:op-000001" ∷ []))
    ∷ (202, subscribes)
    ∷ []

accept_scoped-IsConsistent_example :
    let r = accept_scoped format_id "key" "delete pod/a" "pod/a" 1 fresh in
    IsConsistent r.0 × (r.1 ≢ panic)
accept_scoped-IsConsistent_example =
    accept_scoped-IsConsistent format_id "key" "delete pod/a" "pod/a" 1 fresh
      (with_limits-IsConsistent "i" 2 2 100)

history-IsConsistent_example : IsConsistent (run format_id (with_limits "i" 2 2 100) history)
history-IsConsistent_example = history-IsConsistent format_id "i" 2 2 100 history

key_ne : ◌≢◌ {A = String} "key" ""
key_ne e = ground (arith, eq_iff "key" "", e)

resubmit_live_example :
    ((accept_scoped format_id "key" "scale" "pod/b" 900 busy).1 ≡ err reused)
    × ((replay "key" "scale" 900 busy).1 ≡ err reused)
    × ((accept_scoped format_id "key" "scale" "pod/b" 900 busy).0 ≡ (look_up "key" 900 busy).0)
unfolding is_terminal
resubmit_live_example =
    resubmit_live format_id "key" "scale" "pod/b" delete_key pod_delete 900 busy key_ne (refl, tt)
      (refl, tt) refl refl refl
