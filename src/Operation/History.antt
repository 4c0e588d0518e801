-- ===== src/Operation/History.antt =====
-- Every history of the engine of crates/k10s-backend/src/operation/state.rs.
use k10s.Base.{
  ℕ, ◌≤◌, ◌≡◌, ◌≢◌, String, Bool, true, false, not, Option, some, List, [], ◌∷◌, arith, if_cases,
  if_some_cases, string_eq,
}
use k10s.Base.Maps.{
  Map, lookup, insert, insert-IsMap, count_values, count_values-overwrite-le, length-overwrite,
}
use k10s.Base.Values.{map_values, length-map_values, map_values-IsMap}
use text.Mathlib.TextEquality.{eq_iff}
use k10s.Operation.Idempotency
use k10s.Operation.Records.{OperationState, Retained}
use k10s.Operation.Engine.{Inner, with_limits, settled, owns, accept_scoped, replay}
use k10s.Operation.Lifecycle.{
  allowed, bad_progress, moved, commit, transition, transition_from, released, refresh_scope,
  forgets_key, status, subscribe,
}
use k10s.Operation.Consistency.{
  IsConsistent, accept_scoped-IsConsistent, replay-IsConsistent, expire-IsConsistent,
  emit-IsConsistent, with_store, keep_entries-bound, KeepsState,
}

pub data Call : Type 0 where
  accepts : String → String → String → Call
  replays : String → String → Call
  transitions : String → OperationState → Option (ℕ × ℕ) → Option String → Call
  refreshes : String → Call
  reads : List String → Call
  subscribes : Call

module _ (format_id : String → ℕ → String) where
  unfoldable pub step : Inner → ℕ × Call → Inner
  step s (now, accepts key fingerprint scope) =
      (accept_scoped format_id key fingerprint scope now s).0
  step s (now, replays key fingerprint) = (replay key fingerprint now s).0
  step s (now, transitions id next progress detail) = (transition id next progress detail now s).0
  step s (now, refreshes scope) = refresh_scope scope s
  step s (now, reads ids) = (status ids now s).0
  step s (now, subscribes) = (subscribe now s).0

  unfoldable pub run : Inner → List (ℕ × Call) → Inner
  run s [] = s
  run s (c ∷ cs) = run (step s c) cs

moved-owns :
    (scope : String) (v : Retained) (next : OperationState) (p : Option (ℕ × ℕ)) (d : Option String)
    (now : ℕ)
    → settled v ≡ false
    → owns scope (moved v next p d now) ≡ true
    → owns scope v ≡ true
unfolding owns moved
moved-owns scope v next p d now e h = ground arith

commit-IsConsistent :
    (id : String) (v w : Retained) (s : Inner)
    → lookup id s.operations ≡ some w
    → ((scope : String) → owns scope v ≡ true → owns scope w ≡ true)
    → IsConsistent s
    → IsConsistent (commit id v s).0
unfolding commit Idempotency.remove_operation
commit-IsConsistent id v w s e o h = emit-IsConsistent _ _ (
    if_cases IsConsistent (forgets_key v.operation.state)
      (λ _. with_store _ _ (keep_entries-bound _ s.idempotency h.keys_bounded) written)
      (λ _. written))
  where
    written : IsConsistent (record s { operations = insert id v s.operations })
    written = record {
      keys = insert-IsMap id v s.operations h.keys;
      bounded = rw (length-overwrite id v s.operations (rw e)) h.bounded;
      keys_bounded = h.keys_bounded;
      exclusive = λ scope n. omega (
        arith,
        count_values-overwrite-le (owns scope) id v w s.operations e (o scope),
        h.exclusive scope n,
      );
    }

transition-IsConsistent :
    (id : String) (next : OperationState) (p : Option (ℕ × ℕ)) (d : Option String) (now : ℕ)
    (s : Inner)
    → IsConsistent s
    → IsConsistent (transition id next p d now s).0
unfolding transition transition_from
transition-IsConsistent id next p d now s h =
    if_some_cases KeepsState (lookup id s.operations)
      (λ v e.
        if_cases KeepsState (settled v) (λ _. h)
          λ live.
            if_cases KeepsState (not (allowed v.operation.state next)) (λ _. h)
              λ _.
                if_cases KeepsState (bad_progress p) (λ _. h)
                  λ _.
                    commit-IsConsistent id (moved v next p d now) v s e
                      (λ scope. moved-owns scope v next p d now live) h)
      (λ _. h)

released-owns :
    (scope other : String) (v : Retained)
    → other ≢ ""
    → owns other (released scope v) ≡ true
    → owns other v ≡ true
unfolding owns released
released-owns scope other v n h = ground (arith, eq_iff "" other, eq_iff other "", n)

count_values-map-le :
    (p : Retained → Bool) (f : Retained → Retained)
    → ((v : Retained) → p (f v) ≡ true → p v ≡ true)
    → (m : Map Retained) → count_values p (map_values f m) ≤ count_values p m
count_values-map-le p f g [] = omega arith
count_values-map-le p f g ((k, v) ∷ m) = ground (arith, count_values-map-le p f g m, g v)

refresh-IsConsistent :
    (scope : String) (s : Inner) → IsConsistent s → IsConsistent (refresh_scope scope s)
unfolding refresh_scope
refresh-IsConsistent scope s h = record {
  keys = map_values-IsMap (released scope) s.operations h.keys;
  bounded = rw (length-map_values (released scope) s.operations) h.bounded;
  keys_bounded = h.keys_bounded;
  exclusive = λ other n. omega (
    arith,
    count_values-map-le (owns other) (released scope) (λ v. released-owns scope other v n)
        s.operations,
    h.exclusive other n,
  );
}

pub with_limits-IsConsistent :
    (instance_id : String) (operations keys ttl : ℕ)
    → IsConsistent (with_limits instance_id operations keys ttl)
unfolding with_limits Idempotency.new
with_limits-IsConsistent instance_id operations keys ttl = record {
  keys = tt;
  bounded = omega arith;
  keys_bounded = omega arith;
  exclusive = λ scope n. omega arith;
}

module _ (format_id : String → ℕ → String) where
  step-IsConsistent :
      (s : Inner) (c : ℕ × Call) → IsConsistent s → IsConsistent (step format_id s c)
  unfolding step status subscribe
  step-IsConsistent s (now, accepts key fingerprint scope) h =
      (accept_scoped-IsConsistent format_id key fingerprint scope now s h).0
  step-IsConsistent s (now, replays key fingerprint) h = replay-IsConsistent key fingerprint now s h
  step-IsConsistent s (now, transitions id next p d) h = transition-IsConsistent id next p d now s h
  step-IsConsistent s (now, refreshes scope) h = refresh-IsConsistent scope s h
  step-IsConsistent s (now, reads ids) h = expire-IsConsistent now s h
  step-IsConsistent s (now, subscribes) h =
      let h' = expire-IsConsistent now s h in
      record {
        keys = h'.keys;
        bounded = h'.bounded;
        keys_bounded = h'.keys_bounded;
        exclusive = h'.exclusive;
      }

  run-IsConsistent :
      (s : Inner) (cs : List (ℕ × Call)) → IsConsistent s → IsConsistent (run format_id s cs)
  unfolding run
  run-IsConsistent s [] h = h
  run-IsConsistent s (c ∷ cs) h = run-IsConsistent (step format_id s c) cs (step-IsConsistent s c h)

  -- From a new engine, whatever calls are made at whatever times, the retained operations and keys
  -- stay within their capacities, and no scope but the empty one has two live operations.
  pub history-IsConsistent :
      (instance_id : String) (operations keys ttl : ℕ) (cs : List (ℕ × Call))
      → IsConsistent (run format_id (with_limits instance_id operations keys ttl) cs)
  history-IsConsistent instance_id operations keys ttl cs =
      run-IsConsistent _ cs (with_limits-IsConsistent instance_id operations keys ttl)
