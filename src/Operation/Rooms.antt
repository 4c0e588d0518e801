-- ===== src/Operation/Rooms.antt =====
-- The two `make_room` loops: crates/k10s-backend/src/operation/state.rs and
-- crates/k10s-backend/src/operation/idempotency.rs. Fuel of one more than the number of entries is
-- enough: each round removes an entry.
use k10s.Base.{
  ℕ, zero, suc, ◌≤◌, ◌<◌, ◌≡◌, refl, String, Bool, true, false, Option, none, some, List, arith,
  find, leb, length, is_some, if_cases, if_some_cases, string_eq, Reply, ok, err,
}
use k10s.Base.Lists.{found_passes}
use k10s.Base.Maps.{lookup, length-remove-lt, length-retain_values-le}
use k10s.Operation.Idempotency
use k10s.Operation.Idempotency.{IdempotencyStore}
use k10s.Operation.Records.{BackendError, Retained}
use k10s.Operation.Engine.{Inner, evictable, evict, evict_loop, make_room}

-- A property of states that no eviction of a settled operation can break.
pub record IsEvictable (P : Inner → Type 0) : Type 0 where
  pub keeps :
      (victim : String) (s : Inner)
      → evictable (lookup victim s.operations) ≡ true
      → P s
      → P (evict victim s)

evictable_contains : (o : Option Retained) → evictable o ≡ true → is_some o ≡ true
evictable_contains none h = cc
evictable_contains (some v) h = refl

evict-length :
    (victim : String) (s : Inner)
    → evictable (lookup victim s.operations) ≡ true
    → length (evict victim s).operations < length s.operations
unfolding evict
evict-length victim s h = length-remove-lt victim s.operations (evictable_contains _ h)

-- What `make_room` answers: room for one more, or the refusal.
pub data MakesRoom (P : Inner → Type 0) : Inner × Reply BackendError (Unit {0}) → Type 0 where
  room : (s : Inner) → P s → length s.operations < s.operation_capacity → MakesRoom P (s, ok tt)
  full : (s : Inner) (e : BackendError) → P s → MakesRoom P (s, err e)

module _ (P : Inner → Type 0) (i : IsEvictable P) where
  evict_loop-MakesRoom :
      (fuel : ℕ) (s : Inner) → length s.operations < fuel → P s → MakesRoom P (evict_loop fuel s)
  unfolding evict_loop
  evict_loop-MakesRoom zero s f h = absurd (omega arith)
  evict_loop-MakesRoom (suc fuel) s f h =
      if_cases (MakesRoom P) (leb s.operation_capacity (length s.operations))
        (λ _.
          if_some_cases (MakesRoom P) (find (λ id. evictable (lookup id s.operations)) s.order)
            (λ victim e.
              let ok_victim = found_passes _ s.order victim e in
              evict_loop-MakesRoom fuel (evict victim s)
                (omega (arith, evict-length victim s ok_victim)) (i.keeps victim s ok_victim h))
            (λ _. full s _ h))
        (λ c. room s h (ground arith))

  -- The loop ends, with room for one more operation or with a refusal, and has kept what no eviction
  -- of a settled operation breaks.
  pub make_room-MakesRoom : (s : Inner) → P s → MakesRoom P (make_room s)
  unfolding make_room
  make_room-MakesRoom s h = evict_loop-MakesRoom (suc (length s.operations)) s (omega arith) h

-- The same for the keys: `none` is excluded, and `true` means room for one more.
abbrev pub MakesKeyRoom : ℕ → ℕ → Option (IdempotencyStore × Bool) → Type 0
MakesKeyRoom capacity bound none = ⊥
MakesKeyRoom capacity bound (some (s, true)) =
    (s.capacity ≡ capacity) × (length s.entries < capacity)
MakesKeyRoom capacity bound (some (s, false)) = (s.capacity ≡ capacity) × (length s.entries ≤ bound)

key_contains :
    (live : List String) (o : Option Idempotency.Entry)
    → Idempotency.evictable live o ≡ true
    → is_some o ≡ true
unfolding Idempotency.evictable
key_contains live none h = cc
key_contains live (some v) h = refl

evict_keys :
    (fuel bound : ℕ) (live : List String) (s : IdempotencyStore)
    → length s.entries < fuel
    → length s.entries ≤ bound
    → MakesKeyRoom s.capacity bound (Idempotency.evict_loop fuel live s)
unfolding Idempotency.evict_loop Idempotency.evict
evict_keys zero bound live s f b = absurd (omega arith)
evict_keys (suc fuel) bound live s f b =
    if_cases (MakesKeyRoom s.capacity bound) (leb s.capacity (length s.entries))
      (λ _.
        if_some_cases (MakesKeyRoom s.capacity bound)
          (find (λ k. Idempotency.evictable live (lookup k s.entries)) s.order)
          (λ victim e.
            let found = key_contains live _ (found_passes _ s.order victim e) in
            let shorter = length-remove-lt victim s.entries found in
            evict_keys fuel bound live (Idempotency.evict victim s) (omega (arith, shorter))
              (omega (arith, shorter)))
          (λ _. (refl, b)))
      (λ c. (refl, ground arith))

-- The loop over the keys ends; where it answers `true`, one more key fits.
pub make_key_room :
    (now : ℕ) (live : List String) (s : IdempotencyStore)
    → MakesKeyRoom s.capacity (length s.entries) (Idempotency.make_room now live s)
unfolding Idempotency.make_room Idempotency.expire Idempotency.keep_entries
make_key_room now live s =
    evict_keys _ _ live (Idempotency.expire now live s) (omega arith)
      (length-retain_values-le _ s.entries)
