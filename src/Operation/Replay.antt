-- ===== src/Operation/Replay.antt =====
-- The idempotency of submissions: crates/k10s-backend/src/operation/state.rs.
use k10s.Base.{
  ℕ, ◌≡◌, ◌≢◌, refl, inl, inr, String, true, false, some, List, [], ◌∷◌, arith, string_eq, ok, err,
  if◌then◌else◌, Bool-cases,
}
use k10s.Base.Maps.{Map, lookup, IsMap, lookup-retain}
use text.Mathlib.TextEquality.{eq_iff}
use k10s.Operation.Idempotency
use k10s.Operation.Idempotency.{Entry, contains}
use k10s.Operation.Records.{replayed, Retained}
use k10s.Operation.Engine.{
  Inner, settled, retained_at, expire, live_operation_ids, look_up, accept_scoped, replay, reused,
}

contains_live :
    (id : String) (v : Retained) (m : Map Retained)
    → lookup id m ≡ some v
    → settled v ≡ false
    → contains (live_operation_ids m) id ≡ true
unfolding contains live_operation_ids
contains_live id v [] h l = cc
contains_live id v ((j, w) ∷ m) h l = ground (arith, eq_iff j id, eq_iff id j, contains_live id v m)

expire_live :
    (id : String) (v : Retained) (now : ℕ) (s : Inner)
    → IsMap s.operations
    → lookup id s.operations ≡ some v
    → settled v ≡ false
    → lookup id (expire now s).operations ≡ some v
unfolding expire retained_at
expire_live id v now s m h l = rw (lookup-retain (retained_at now s.ttl) id s.operations m, h, l)

kept_live :
    (now ttl : ℕ) (live : List String) (e : Entry)
    → contains live e.operation_id ≡ true
    → Idempotency.kept now ttl live e ≡ true
unfolding Idempotency.kept
kept_live now ttl live e h = rw h

-- A key whose operation is live is found, at any time.
look_up_live :
    (key : String) (e : Entry) (v : Retained) (now : ℕ) (s : Inner)
    → IsMap s.operations
    → IsMap s.idempotency.entries
    → lookup key s.idempotency.entries ≡ some e
    → lookup e.operation_id s.operations ≡ some v
    → settled v ≡ false
    → (look_up key now s).1 ≡ some e
unfolding look_up Idempotency.get Idempotency.expire Idempotency.keep_entries expire
look_up_live key e v now s m n k o l =
    let live = live_operation_ids (expire now s).operations in
    let found =
      contains_live e.operation_id v (expire now s).operations
        (expire_live e.operation_id v now s m o l) l in
    rw (
      lookup-retain (Idempotency.kept now s.idempotency.ttl live) key s.idempotency.entries n,
      k,
      kept_live now s.idempotency.ttl live e found,
    )

module _ (format_id : String → ℕ → String) where
  -- While the operation of a key is live, submitting the key again starts nothing: the same
  -- fingerprint is answered with the operation that it started, whatever the scope, and another
  -- fingerprint is refused. `replay` agrees.
  pub resubmit_live :
      (key fingerprint scope : String) (e : Entry) (v : Retained) (now : ℕ) (s : Inner)
      → key ≢ ""
      → IsMap s.operations
      → IsMap s.idempotency.entries
      → lookup key s.idempotency.entries ≡ some e
      → lookup e.operation_id s.operations ≡ some v
      → settled v ≡ false
      → let same = string_eq.beq e.fingerprint fingerprint in
        ((accept_scoped format_id key fingerprint scope now s).1
          ≡ (if same then ok (replayed e.operation_id) else err reused))
        × ((replay key fingerprint now s).1
            ≡ (if same then ok (some e.operation_id) else err reused))
        × ((accept_scoped format_id key fingerprint scope now s).0 ≡ (look_up key now s).0)
  unfolding accept_scoped replay
  resubmit_live key fingerprint scope e v now s k m n f o l =
      let found = look_up_live key e v now s m n f o l in
      let has_key : string_eq.beq key "" ≡ false = ground (arith, eq_iff key "", k) in
      elim (Bool-cases (string_eq.beq e.fingerprint fingerprint)) [
        | inl same ↦ rw (has_key, found, same) (refl, refl, refl)
        | inr other ↦ rw (has_key, found, other) (refl, refl, refl)
      ]
