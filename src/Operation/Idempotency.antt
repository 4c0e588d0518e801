-- ===== src/Operation/Idempotency.antt =====
-- crates/k10s-backend/src/operation/idempotency.rs: bounded retention of idempotency keys. The set of live
-- operations is a list of their identifiers.
use k10s.Base.{
  ℕ, zero, suc, ◌-◌, String, Bool, true, false, not, ◌||◌, Option, none, some, List, [], ◌∷◌, ◌++◌,
  ltb, leb, if◌then◌else◌, if_some, length, retain, any, find, string_eq,
}
use k10s.Base.Maps.{Map, lookup, contains_key, insert, remove, retain_values}

pub record Entry : Type 0 where
  pub operation_id : String
  pub fingerprint : String
  pub accepted_at : ℕ

pub record IdempotencyStore : Type 0 where
  pub entries : Map Entry
  pub order : List String
  pub capacity : ℕ
  pub ttl : ℕ

unfoldable pub new : ℕ → ℕ → IdempotencyStore
new capacity ttl = record { entries = []; order = []; capacity = capacity; ttl = ttl }

unfoldable pub entry : String → String → ℕ → Entry
entry operation_id fingerprint now = record {
  operation_id = operation_id;
  fingerprint = fingerprint;
  accepted_at = now;
}

-- `HashSet::contains`.
unfoldable pub contains : List String → String → Bool
contains live id = any (string_eq.beq id) live

-- The `retain` on the entries, and the one on the order that follows it.
unfoldable pub keep_entries : (Entry → Bool) → IdempotencyStore → IdempotencyStore
keep_entries p s =
    let entries = retain_values p s.entries in
    record s { entries = entries; order = retain (λ k. contains_key k entries) s.order }

unfoldable pub kept : ℕ → ℕ → List String → Entry → Bool
kept now ttl live e = contains live e.operation_id || ltb (now - e.accepted_at) ttl

unfoldable pub expire : ℕ → List String → IdempotencyStore → IdempotencyStore
expire now live s = keep_entries (kept now s.ttl live) s

unfoldable pub get : String → ℕ → List String → IdempotencyStore → IdempotencyStore × Option Entry
get key now live s = let s = expire now live s in (s, lookup key s.entries)

unfoldable pub insert_key : String → Entry → IdempotencyStore → IdempotencyStore
insert_key key e s = record s { entries = insert key e s.entries; order = s.order ++ key ∷ [] }

-- `is_some_and(|entry| !live_operations.contains(..))`.
unfoldable pub evictable : List String → Option Entry → Bool
evictable live none = false
evictable live (some e) = not (contains live e.operation_id)

unfoldable pub evict : String → IdempotencyStore → IdempotencyStore
evict key s = record s {
  entries = remove key s.entries;
  order = retain (λ k. not (string_eq.beq k key)) s.order;
}

-- The `while` of `make_room`: `none` is fuel that ran out, which a theorem excludes.
unfoldable pub evict_loop : ℕ → List String → IdempotencyStore → Option (IdempotencyStore × Bool)
evict_loop zero live s = none
evict_loop (suc fuel) live s =
    if leb s.capacity (length s.entries)
    then if_some (find (λ k. evictable live (lookup k s.entries)) s.order)
        (λ victim. evict_loop fuel live (evict victim s)) (some (s, false))
    else some (s, true)

unfoldable pub make_room : ℕ → List String → IdempotencyStore → Option (IdempotencyStore × Bool)
make_room now live s = let s = expire now live s in evict_loop (suc (length s.entries)) live s

unfoldable pub remove_operation : String → IdempotencyStore → IdempotencyStore
remove_operation id s = keep_entries (λ e. not (string_eq.beq e.operation_id id)) s
