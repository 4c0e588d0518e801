-- ===== src/Operation/Engine.antt =====
-- crates/k10s-backend/src/operation/state.rs: the engine behind its lock, each method one step. The time of
-- a call is its argument `now`. A broadcast sender is a `Watcher`: the number of its receivers, which
-- the receivers' owners change, and what was sent.
use k10s.Base.{
  ℕ, zero, suc, ◌+◌, ◌-◌, ◌^◌, ◌%◌, String, Bool, true, false, not, ◌&&◌, ◌||◌, Option, none, some,
  List, [], ◌∷◌, ◌++◌, map, ltb, leb, if◌then◌else◌, if_some, length, retain, find, string_eq,
  Reply, ok, err, panic,
}
use k10s.Base.Maps.{Map, lookup, contains_key, insert, remove, retain_values, any_value}
use k10s.Operation.Idempotency
use k10s.Operation.Idempotency.{IdempotencyStore}
use k10s.Operation.Records.{
  pending, is_terminal, BackendError, conflict, OperationRecord, OperationEvent, AcceptOutcome,
  accepted, replayed, Retained, event_from,
}

pub record Watcher : Type 0 where
  pub receiver_count : ℕ
  pub sent : List OperationEvent

pub record Inner : Type 0 where
  pub instance_id : String
  pub next_id : ℕ
  pub operations : Map Retained
  pub order : List String
  pub operation_capacity : ℕ
  pub ttl : ℕ
  pub idempotency : IdempotencyStore
  pub watchers : List Watcher

unfoldable pub with_limits : String → ℕ → ℕ → ℕ → Inner
with_limits instance_id operations keys ttl = record {
  instance_id = instance_id;
  next_id = 1;
  operations = [];
  order = [];
  operation_capacity = operations;
  ttl = ttl;
  idempotency = Idempotency.new keys ttl;
  watchers = [];
}

-- `OperationEngine::new`, with the retention in seconds.
unfoldable default_limits : String → Inner
unfolding with_limits
default_limits instance_id = with_limits instance_id 1024 1024 900

abbrev pub settled : Retained → Bool
settled v = is_terminal v.operation.state

-- The identifiers of the operations that are not terminal.
unfoldable pub live_operation_ids : Map Retained → List String
live_operation_ids [] = []
live_operation_ids ((id, v) ∷ m) =
    let rest = live_operation_ids m in if settled v then rest else id ∷ rest

unfoldable pub retained_at : ℕ → ℕ → Retained → Bool
retained_at now ttl v = not (settled v) || ltb (now - v.updated_at) ttl

unfoldable pub expire : ℕ → Inner → Inner
expire now s =
    let operations = retain_values (retained_at now s.ttl) s.operations in
    record s { operations = operations; order = retain (λ id. contains_key id operations) s.order }

-- `is_some_and(|v| v.record.state.is_terminal())`.
abbrev pub evictable : Option Retained → Bool
evictable none = false
evictable (some v) = settled v

unfoldable pub evict : String → Inner → Inner
evict victim s = record s {
  operations = remove victim s.operations;
  order = retain (λ id. not (string_eq.beq id victim)) s.order;
}

-- The `while` of `make_room`: `panic` is fuel that ran out, which a theorem excludes.
unfoldable pub evict_loop : ℕ → Inner → Inner × Reply BackendError (Unit {0})
evict_loop zero s = (s, panic)
evict_loop (suc fuel) s =
    if leb s.operation_capacity (length s.operations)
    then if_some (find (λ id. evictable (lookup id s.operations)) s.order)
        (λ victim. evict_loop fuel (evict victim s))
        (s, err (conflict "the operation capacity is full"))
    else (s, ok tt)

unfoldable pub make_room : Inner → Inner × Reply BackendError (Unit {0})
make_room s = evict_loop (suc (length s.operations)) s

unfoldable pub emit : OperationEvent → Inner → Inner
emit e s = record s {
  watchers =
      map (λ (w : Watcher). record w { sent = w.sent ++ e ∷ [] })
        (retain (λ (w : Watcher). ltb 0 w.receiver_count) s.watchers);
}

-- Whether a live operation owns the scope.
unfoldable pub owns : String → Retained → Bool
owns scope v = not (settled v) && string_eq.beq v.scope scope

-- `expire`, and the lookup of the key.
unfoldable pub look_up : String → ℕ → Inner → Inner × Option Idempotency.Entry
look_up key now s =
    let s = expire now s in
    let (store, found) = Idempotency.get key now (live_operation_ids s.operations) s.idempotency in
    (record s { idempotency = store }, found)

abbrev pub reused : BackendError
reused = conflict "the idempotency key was already used for a different submission"

unfoldable pub replay : String → String → ℕ → Inner → Inner × Reply BackendError (Option String)
replay key fingerprint now s =
    let (s, found) = look_up key now s in
    if_some found
      (λ e.
        if string_eq.beq e.fingerprint fingerprint
        then (s, ok (some e.operation_id))
        else (s, err reused))
      (s, ok none)

-- The text of `format!("{}:op-{:06}", instance_id, next_id)`.
module _ (format_id : String → ℕ → String) where
  new_record : Inner → OperationRecord
  new_record s = record {
    id = format_id s.instance_id s.next_id;
    state = pending;
    progress = none;
    detail = none;
  }

  -- The end of `accept_scoped`, past its last refusal.
  unfoldable pub register :
      String → String → String → ℕ → Inner → Inner × Reply BackendError AcceptOutcome
  unfolding new_record
  register key fingerprint scope now s =
      let r = new_record s in
      let s = record s {
        next_id = (s.next_id + 1) % 2 ^ 64;
        operations =
            insert r.id (record { operation = r; scope = scope; updated_at = now }) s.operations;
        order = s.order ++ r.id ∷ [];
        idempotency =
            Idempotency.insert_key key (Idempotency.entry r.id fingerprint now) s.idempotency;
      } in
      (emit (event_from r none) s, ok (accepted r.id))

  unfoldable pub admit_key :
      String
      → String
      → String
      → ℕ
      → Inner
      → Option (IdempotencyStore × Bool)
      → Inner × Reply BackendError AcceptOutcome
  admit_key key fingerprint scope now s none = (s, panic)
  admit_key key fingerprint scope now s (some (store, false)) =
      (record s { idempotency = store }, err (conflict "the idempotency capacity is full"))
  admit_key key fingerprint scope now s (some (store, true)) =
      register key fingerprint scope now (record s { idempotency = store })

  unfoldable pub admit_room :
      String
      → String
      → String
      → ℕ
      → List String
      → Inner × Reply BackendError (Unit {0})
      → Inner × Reply BackendError AcceptOutcome
  admit_room key fingerprint scope now live (s, err e) = (s, err e)
  admit_room key fingerprint scope now live (s, panic) = (s, panic)
  admit_room key fingerprint scope now live (s, ok u) =
      admit_key key fingerprint scope now s (Idempotency.make_room now live s.idempotency)

  unfoldable pub admit :
      String → String → String → ℕ → List String → Inner → Inner × Reply BackendError AcceptOutcome
  admit key fingerprint scope now live s =
      if any_value (owns scope) s.operations
      then (
        s,
        err (conflict "an operation for this target is already in flight; refresh before retrying"),
      )
      else admit_room key fingerprint scope now live (make_room s)

  unfoldable pub accept_scoped :
      String → String → String → ℕ → Inner → Inner × Reply BackendError AcceptOutcome
  accept_scoped key fingerprint scope now s =
      if string_eq.beq key ""
      then (s, err (conflict "an idempotency key is required"))
      else let (s, found) = look_up key now s in
        if_some found
          (λ e.
            if string_eq.beq e.fingerprint fingerprint
            then (s, ok (replayed e.operation_id))
            else (s, err reused))
          (admit key fingerprint scope now (live_operation_ids s.operations) s)

  unfoldable pub accept : String → String → ℕ → Inner → Inner × Reply BackendError AcceptOutcome
  accept key fingerprint now s = accept_scoped key fingerprint fingerprint now s
