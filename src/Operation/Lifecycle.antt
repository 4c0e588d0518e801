-- ===== src/Operation/Lifecycle.antt =====
-- The transitions and the readers of crates/k10s-backend/src/operation/state.rs.
use Prim.Native.String.{compare}
use Prim.Native.Nat.{Ordering}
use k10s.Base.{
  ℕ, String, Bool, true, false, not, ◌&&◌, ◌||◌, Option, none, some, List, [], ◌∷◌, ◌++◌, map, ltb,
  ◌==◌, if◌then◌else◌, if_some, string_eq, Reply, ok, err,
}
use k10s.Base.Maps.{Map, lookup, insert}
use k10s.Base.Values.{map_values}
use k10s.Operation.Idempotency
use k10s.Operation.Records.{
  OperationState, pending, running, succeeded, failed, cancelled, outcome_unknown, BackendError,
  not_found, conflict, OperationRecord, OperationEvent, Retained, event_from,
}
use k10s.Operation.Engine.{Inner, settled, expire, emit}

-- The `matches!` of `transition`.
unfoldable pub allowed : OperationState → OperationState → Bool
allowed pending running = true
allowed pending cancelled = true
allowed pending failed = true
allowed running running = true
allowed running succeeded = true
allowed running failed = true
allowed running outcome_unknown = true
allowed outcome_unknown succeeded = true
allowed outcome_unknown failed = true
allowed _ _ = false

unfoldable pub bad_progress : Option (ℕ × ℕ) → Bool
bad_progress none = false
bad_progress (some (completed, total)) = total == 0 || ltb total completed

-- `matches!(next, OperationState::Failed | OperationState::Cancelled)`.
unfoldable pub forgets_key : OperationState → Bool
forgets_key failed = true
forgets_key cancelled = true
forgets_key _ = false

unfoldable pub moved : Retained → OperationState → Option (ℕ × ℕ) → Option String → ℕ → Retained
moved v next progress detail now = record v {
  operation = record v.operation { state = next; progress = progress; detail = detail };
  updated_at = now;
}

-- The writes of `transition` after its last refusal.
unfoldable pub commit : String → Retained → Inner → Inner × Reply BackendError (Unit {0})
commit id v s =
    let s = record s { operations = insert id v s.operations } in
    let s =
      if forgets_key v.operation.state
      then record s { idempotency = Idempotency.remove_operation id s.idempotency }
      else s in
    (emit (event_from v.operation v.operation.detail) s, ok tt)

unfoldable pub transition_from :
    String
    → OperationState
    → Option (ℕ × ℕ)
    → Option String
    → ℕ
    → Inner
    → Retained
    → Inner × Reply BackendError (Unit {0})
transition_from id next progress detail now s v =
    if settled v
    then (s, err (conflict "the operation is already terminal"))
    else if not (allowed v.operation.state next)
    then (s, err (conflict "the operation transition is not valid"))
    else if bad_progress progress
    then (s, err (conflict "operation progress is invalid"))
    else commit id (moved v next progress detail now) s

unfoldable pub transition :
    String
    → OperationState
    → Option (ℕ × ℕ)
    → Option String
    → ℕ
    → Inner
    → Inner × Reply BackendError (Unit {0})
transition id next progress detail now s =
    if_some (lookup id s.operations) (transition_from id next progress detail now s)
      (s, err not_found)

abbrev Method : Type 0
Method = ℕ → Inner → Inner × Reply BackendError (Unit {0})

unfoldable pub set_running : String → Option (ℕ × ℕ) → Method
set_running id progress = transition id running progress none

unfoldable pub set_succeeded : String → Method
set_succeeded id = transition id succeeded none none

unfoldable pub set_failed : String → String → Method
set_failed id safe_detail = transition id failed none (some safe_detail)

unfoldable pub set_outcome_unknown : String → Method
set_outcome_unknown id =
    transition id outcome_unknown none
      (some "the submission outcome is unknown; refresh the target before retrying")

unfoldable pub cancel_before_submit : String → Method
cancel_before_submit id = transition id cancelled none none

abbrev is_outcome_unknown : OperationState → Bool
is_outcome_unknown outcome_unknown = true
is_outcome_unknown _ = false

unfoldable pub released : String → Retained → Retained
released scope v =
    if string_eq.beq v.scope scope && is_outcome_unknown v.operation.state
    then record v { scope = "" }
    else v

unfoldable pub refresh_scope : String → Inner → Inner
refresh_scope scope s = record s { operations = map_values (released scope) s.operations }

unfoldable pub statuses : List String → Map Retained → List OperationRecord
statuses [] m = []
statuses (id ∷ ids) m =
    let rest = statuses ids m in if_some (lookup id m) (λ v. v.operation ∷ rest) rest

unfoldable pub status : List String → ℕ → Inner → Inner × List OperationRecord
status ids now s = let s = expire now s in (s, statuses ids s.operations)

unfoldable pub live_records : Map Retained → List OperationRecord
live_records [] = []
live_records ((id, v) ∷ m) =
    let rest = live_records m in if settled v then rest else v.operation ∷ rest

-- The stable `sort_by` on the identifiers.
abbrev id_le : String → String → Bool
id_le a b = elim (compare a b) [ Ordering.gt ↦ false | _ ↦ true ]

unfoldable pub insert_sorted : OperationRecord → List OperationRecord → List OperationRecord
insert_sorted r [] = r ∷ []
insert_sorted r (q ∷ rs) = if id_le r.id q.id then r ∷ q ∷ rs else q ∷ insert_sorted r rs

unfoldable pub sort_records : List OperationRecord → List OperationRecord
sort_records [] = []
sort_records (r ∷ rs) = insert_sorted r (sort_records rs)

-- The new receiver is the only one of its sender.
unfoldable pub subscribe : ℕ → Inner → Inner × List OperationEvent
subscribe now s =
    let s = expire now s in
    let events = map (λ r. event_from r none) (sort_records (live_records s.operations)) in
    (
      record s { watchers = s.watchers ++ record { receiver_count = 1; sent = events } ∷ [] },
      events,
    )
