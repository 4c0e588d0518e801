-- ===== src/Operation/Consistency.antt =====
-- The invariant of the engine of crates/k10s-backend/src/operation/state.rs: bounded maps, and one live
-- operation for each target scope.
use k10s.Base.{
  ℕ, ◌≤◌, ◌<◌, ◌≡◌, ◌≢◌, refl, inl, inr, String, Bool, true, false, Option, none, some, List, arith,
  length, Bool-cases, if_cases, if_some_cases, string_eq, Reply, panic,
}
use k10s.Base.Maps.{
  Map, insert, any_value, IsMap, insert-IsMap, remove-IsMap, retain_values-IsMap, count_values,
  count_values-retain-le, count_values-remove-le, count_values-insert-le, count_values_of_any,
  length-insert-le, length-remove-le, length-retain_values-le,
}
use text.Mathlib.TextEquality.{eq_iff}
use k10s.Operation.Idempotency
use k10s.Operation.Idempotency.{IdempotencyStore}
use k10s.Operation.Records.{BackendError, AcceptOutcome, OperationEvent, Retained}
use k10s.Operation.Engine.{
  Inner, evict, expire, emit, register, owns, admit, admit_room, admit_key, look_up, accept_scoped,
  replay,
}
use k10s.Operation.Rooms.{
  IsEvictable, MakesRoom, room, full, make_room-MakesRoom, MakesKeyRoom, make_key_room,
}

-- The engine retains at most `operation_capacity` operations and `capacity` keys, and at most one
-- live operation owns a scope; the empty scope marks operations that were released.
pub record IsConsistent (s : Inner) : Type 0 where
  pub keys : IsMap s.operations
  pub bounded : length s.operations ≤ s.operation_capacity
  pub keys_bounded : length s.idempotency.entries ≤ s.idempotency.capacity
  pub exclusive : (scope : String) → scope ≢ "" → count_values (owns scope) s.operations ≤ 1

pub evict-IsConsistent : IsEvictable IsConsistent
unfolding evict
evict-IsConsistent = record {
  keeps = λ victim s _ h. record {
    keys = remove-IsMap victim s.operations h.keys;
    bounded = omega (arith, length-remove-le victim s.operations, h.bounded);
    keys_bounded = h.keys_bounded;
    exclusive = λ scope e.
        omega (arith, count_values-remove-le (owns scope) victim s.operations, h.exclusive scope e);
  };
}

pub expire-IsConsistent : (now : ℕ) (s : Inner) → IsConsistent s → IsConsistent (expire now s)
unfolding expire
expire-IsConsistent now s h = record {
  keys = retain_values-IsMap _ s.operations h.keys;
  bounded = omega (arith, length-retain_values-le _ s.operations, h.bounded);
  keys_bounded = h.keys_bounded;
  exclusive = λ scope e.
      omega (arith, count_values-retain-le (owns scope) _ s.operations, h.exclusive scope e);
}

pub with_store :
    (s : Inner) (t : IdempotencyStore)
    → length t.entries ≤ t.capacity
    → IsConsistent s
    → IsConsistent (record s { idempotency = t })
with_store s t b h = record {
  keys = h.keys;
  bounded = h.bounded;
  keys_bounded = b;
  exclusive = h.exclusive;
}

pub emit-IsConsistent : (e : OperationEvent) (s : Inner) → IsConsistent s → IsConsistent (emit e s)
unfolding emit
emit-IsConsistent e s h = record {
  keys = h.keys;
  bounded = h.bounded;
  keys_bounded = h.keys_bounded;
  exclusive = h.exclusive;
}

-- A shorter store is within its bound.
pub keep_entries-bound :
    (p : Idempotency.Entry → Bool) (t : IdempotencyStore)
    → length t.entries ≤ t.capacity
    → let u = Idempotency.keep_entries p t in length u.entries ≤ u.capacity
unfolding Idempotency.keep_entries
keep_entries-bound p t b = omega (arith, length-retain_values-le p t.entries)

pub look_up-IsConsistent :
    (key : String) (now : ℕ) (s : Inner) → IsConsistent s → IsConsistent (look_up key now s).0
unfolding look_up Idempotency.get Idempotency.expire
look_up-IsConsistent key now s h =
    with_store (expire now s) _
      (keep_entries-bound _ (expire now s).idempotency (expire-IsConsistent now s h).keys_bounded)
      (expire-IsConsistent now s h)

owns_new :
    (scope other : String) (v : Retained) → v.scope ≡ scope → owns other v ≡ true → other ≡ scope
unfolding owns
owns_new scope other v e h = ground (arith, eq_iff v.scope other)

exclusive_insert :
    (id scope other : String) (v : Retained) (m : Map Retained)
    → v.scope ≡ scope
    → count_values (owns scope) m ≡ 0
    → count_values (owns other) m ≤ 1
    → count_values (owns other) (insert id v m) ≤ 1
exclusive_insert id scope other v m e free h = elim (Bool-cases (owns other v)) [
  | inl c ↦
      let at_scope : count_values (owns other) m ≡ 0 = rw (owns_new scope other v e c) free in
      ground (arith, count_values-insert-le (owns other) id v m, at_scope, c)
  | inr c ↦ ground (arith, count_values-insert-le (owns other) id v m, c, h)
]

-- Consistent, and nothing live owns the scope.
record IsFree (scope : String) (s : Inner) : Type 0 where
  consistent : IsConsistent s
  free : count_values (owns scope) s.operations ≡ 0

evict-IsFree : (scope : String) → IsEvictable (IsFree scope)
unfolding evict
evict-IsFree scope = record {
  keeps = λ victim s e h. record {
    consistent = evict-IsConsistent.keeps victim s e h.consistent;
    free = omega (arith, count_values-remove-le (owns scope) victim s.operations, h.free);
  };
}

module _ (format_id : String → ℕ → String) where
  -- One more operation, where nothing live owns its scope and there is room for it and for its key.
  register-IsConsistent :
      (key fingerprint scope : String) (now : ℕ) (s : Inner)
      → IsConsistent s
      → count_values (owns scope) s.operations ≡ 0
      → length s.operations < s.operation_capacity
      → length s.idempotency.entries < s.idempotency.capacity
      → IsConsistent (register format_id key fingerprint scope now s).0
  unfolding register Idempotency.insert_key
  register-IsConsistent key fingerprint scope now s h free r k = emit-IsConsistent _ _ (record {
    keys = insert-IsMap _ _ s.operations h.keys;
    bounded = omega (arith, length-insert-le _ _ s.operations);
    keys_bounded = omega (arith, length-insert-le key _ s.idempotency.entries);
    exclusive =
        λ other e. exclusive_insert _ scope other _ s.operations refl free (h.exclusive other e);
  })

  -- What `accept_scoped` returns beside the state is no panic.
  abbrev Accepts : Inner × Reply BackendError AcceptOutcome → Type 0
  Accepts (s, r) = IsConsistent s × (r ≢ panic)

  admit_key-Accepts :
      (key fingerprint scope : String) (now : ℕ) (s : Inner) (o : Option (IdempotencyStore × Bool))
      → IsConsistent s
      → count_values (owns scope) s.operations ≡ 0
      → length s.operations < s.operation_capacity
      → MakesKeyRoom s.idempotency.capacity (length s.idempotency.entries) o
      → Accepts (admit_key format_id key fingerprint scope now s o)
  unfolding admit_key register
  admit_key-Accepts key fingerprint scope now s none h free r k = absurd k
  admit_key-Accepts key fingerprint scope now s (some (t, false)) h free r k =
      (with_store s t (omega (arith, h.keys_bounded)) h, λ c. cc)
  admit_key-Accepts key fingerprint scope now s (some (t, true)) h free r k = (
    register-IsConsistent key fingerprint scope now (record s { idempotency = t })
        (with_store s t (omega arith) h) free r (omega arith),
    λ c. cc,
  )

  admit_room-Accepts :
      (key fingerprint scope : String) (now : ℕ) (live : List String)
      (r : Inner × Reply BackendError (Unit {0}))
      → MakesRoom (IsFree scope) r
      → Accepts (admit_room format_id key fingerprint scope now live r)
  unfolding admit_room
  admit_room-Accepts key fingerprint scope now live _ (room s h r) =
      admit_key-Accepts key fingerprint scope now s _ h.consistent h.free r
        (make_key_room now live s.idempotency)
  admit_room-Accepts key fingerprint scope now live _ (full s e h) = (h.consistent, λ c. cc)

  admit-Accepts :
      (key fingerprint scope : String) (now : ℕ) (live : List String) (s : Inner)
      → IsConsistent s
      → Accepts (admit format_id key fingerprint scope now live s)
  unfolding admit
  admit-Accepts key fingerprint scope now live s h =
      if_cases Accepts (any_value (owns scope) s.operations) (λ _. (h, λ c. cc))
        λ e. admit_room-Accepts key fingerprint scope now live _ (
          make_room-MakesRoom (IsFree scope) (evict-IsFree scope) s
            (record { consistent = h; free = count_values_of_any (owns scope) s.operations e }))

  -- Whatever is submitted, `accept_scoped` ends with an outcome or a refusal, and leaves the engine
  -- within its capacities and with one live operation for each scope at most.
  pub accept_scoped-IsConsistent :
      (key fingerprint scope : String) (now : ℕ) (s : Inner)
      → IsConsistent s
      → let r = accept_scoped format_id key fingerprint scope now s in
        IsConsistent r.0 × (r.1 ≢ panic)
  unfolding accept_scoped
  accept_scoped-IsConsistent key fingerprint scope now s h =
      let found = look_up key now s in
      let h' = look_up-IsConsistent key now s h in
      if_cases Accepts (string_eq.beq key "") (λ _. (h, λ c. cc))
        λ _.
          if_some_cases Accepts found.1
            (λ e _.
              if_cases Accepts (string_eq.beq e.fingerprint fingerprint) (λ _. (h', λ c. cc))
                (λ _. (h', λ c. cc)))
            (λ _. admit-Accepts key fingerprint scope now _ found.0 h')

abbrev pub KeepsState : {A : Type 0} → Inner × Reply BackendError A → Type 0
KeepsState (s, r) = IsConsistent s

pub replay-IsConsistent :
    (key fingerprint : String) (now : ℕ) (s : Inner)
    → IsConsistent s
    → IsConsistent (replay key fingerprint now s).0
unfolding replay
replay-IsConsistent key fingerprint now s h =
    let found = look_up key now s in
    let h' = look_up-IsConsistent key now s h in
    if_some_cases KeepsState found.1
      (λ e _. if_cases KeepsState (string_eq.beq e.fingerprint fingerprint) (λ _. h') (λ _. h'))
      (λ _. h')
