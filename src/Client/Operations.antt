-- ===== src/Client/Operations.antt =====
-- The background operations that a client retains: `record_view`, `merge_operation_status`, the record
-- of an accepted command and `retry_eligibility` of crates/k10s-ui/src/client/state.rs. A request ID is
-- its text, progress is of any type `G`, a `HashSet` is a map to the unit. `Mutations` holds these
-- fields of the state. A loop runs on fuel, and `none` means that it ran out.
use k10s.Base.{
  ℕ, zero, suc, String, Bool, true, false, not, ◌&&◌, Option, none, some, List, [], ◌∷◌, ◌++◌, any,
  retain, find, length, ltb, or_else, is_some, if◌then◌else◌, if_some, string_eq,
}
use k10s.Base.Maps.{Map, lookup, contains_key, insert, remove}
use k10s.Client.Rows.{ResourceIdentity}

pub data OperationStatus : Type 0 where
  pending running succeeded failed cancelled outcome_unknown unknown : OperationStatus

pub record OperationView (G : Type 0) : Type 0 where
  pub status : OperationStatus
  pub progress : Option G

abbrev pub is_terminal_status : OperationStatus → Bool
is_terminal_status succeeded = true
is_terminal_status failed = true
is_terminal_status cancelled = true
is_terminal_status unknown = true
is_terminal_status pending = false
is_terminal_status running = false
is_terminal_status outcome_unknown = false

abbrev pub is_unknown : OperationStatus → Bool
is_unknown unknown = true
is_unknown pending = false
is_unknown running = false
is_unknown succeeded = false
is_unknown failed = false
is_unknown cancelled = false
is_unknown outcome_unknown = false

unfoldable pub is_terminal : {G : Type 0} → OperationView G → Bool
is_terminal view = is_terminal_status view.status

abbrev pub operation_retention : ℕ
operation_retention = 128

abbrev pub key_retention : ℕ
key_retention = 64

pub record TargetRefresh : Type 0 where
  pub target : ResourceIdentity
  pub keys : List String

pub data RetryEligibility : Type 0 where
  eligible refresh_pending blocked : RetryEligibility

pub record Mutations (G : Type 0) : Type 0 where
  pub operations : Map (OperationView G)
  pub operation_order : List String
  pub submitted_keys : Map String
  pub submitted_targets : Map ResourceIdentity
  pub unverified_unknown_keys : Map (Unit {0})
  pub target_refreshes : Map TargetRefresh
  pub key_order : List String
  pub operation_refresh : Option String

-- The status answer of the server.
pub record OperationStatusEntry (G : Type 0) : Type 0 where
  pub operation_id : String
  pub status : OperationStatus
  pub progress : Option G

abbrev pub first_of : List String → Option String
first_of [] = none
first_of (id ∷ ids) = some id

abbrev pub then_some : {A B : Type 0} → Option A → (A → Option B) → Option B
then_some none f = none
then_some (some a) f = f a

-- The keys of operations that became unknown.
unfoldable pub unverify : List String → Map String → Map (Unit {0}) → Map (Unit {0})
unverify ids [] unverified = unverified
unverify ids ((key, id) ∷ keys) unverified =
    unverify ids keys
      (if any (λ j. string_eq.beq j id) ids then insert key tt unverified else unverified)

module _ {G : Type 0} where
  unfoldable pub holds_terminal : Map (OperationView G) → String → Bool
  unfolding is_terminal
  holds_terminal operations id = if_some (lookup id operations) is_terminal false

  -- The entry that goes: the oldest terminal one, else the oldest.
  unfoldable pub victim : Map (OperationView G) → List String → Option String
  unfolding holds_terminal
  victim operations order = or_else (find (holds_terminal operations) order) (first_of order)

  unfoldable pub evict_operations :
      ℕ → Map (OperationView G) → List String → Option (Map (OperationView G) × List String)
  evict_operations zero operations order = none
  evict_operations (suc fuel) operations order =
      elim (ltb operation_retention (length operations)) [
        | false ↦ some (operations, order)
        | true ↦ elim (victim operations order) [
          | none ↦ some (operations, order)
          | some oldest ↦
              evict_operations fuel (remove oldest operations)
                (retain (λ id. not (string_eq.beq id oldest)) order)
        ]
      ]

  abbrev pub with_operations :
      Mutations G → Option (Map (OperationView G) × List String) → Option (Mutations G)
  with_operations s none = none
  with_operations s (some (operations, order)) =
      some (record s { operations = operations; operation_order = order })

  -- An entry of the order goes in each round.
  unfoldable pub record_view :
      String → OperationStatus → Option G → Mutations G → Option (Mutations G)
  unfolding evict_operations
  record_view id status progress s =
      let order =
        if contains_key id s.operations then s.operation_order else s.operation_order ++ id ∷ [] in
      with_operations s (
        evict_operations (suc (length order))
          (insert id (record { status = status; progress = progress }) s.operations) order)

  unfoldable pub nonterminal_operation_ids : Mutations G → List String
  unfolding is_terminal
  nonterminal_operation_ids s =
      retain (λ id. if_some (lookup id s.operations) (λ view. not (is_terminal view)) false)
        s.operation_order

  -- The loop over the key retention: it would not end on an empty order.
  unfoldable pub evict_keys : ℕ → Mutations G → Option (Mutations G)
  evict_keys zero s = none
  evict_keys (suc fuel) s = elim (ltb key_retention (length s.submitted_keys)) [
    | false ↦ some s
    | true ↦ elim s.key_order [
      | [] ↦ evict_keys fuel s
      | oldest ∷ rest ↦ evict_keys fuel (record s {
        submitted_keys = remove oldest s.submitted_keys;
        submitted_targets = remove oldest s.submitted_targets;
        unverified_unknown_keys = remove oldest s.unverified_unknown_keys;
        key_order = rest;
      })
    ]
  ]

  -- The key of an accepted command.
  unfoldable pub retain_key : String → String → Mutations G → Option (Mutations G)
  unfolding evict_keys
  retain_key key operation_id s =
      if contains_key key s.submitted_keys
      then some s
      else evict_keys (suc (suc (length s.key_order))) (record s {
        submitted_keys = insert key operation_id s.submitted_keys;
        key_order = s.key_order ++ key ∷ [];
      })

  abbrev pub needs_view : Option (OperationView G) → Bool
  needs_view none = true
  needs_view (some view) = is_unknown view.status

  -- The answer that a command was accepted, with its key and its target.
  unfoldable pub accept_command :
      String → String → Option ResourceIdentity → Mutations G → Option (Mutations G)
  unfolding retain_key record_view
  accept_command key operation_id target s = then_some (retain_key key operation_id s) λ t.
      let u = record t {
        submitted_targets =
            if_some target (λ r. insert key r t.submitted_targets) t.submitted_targets;
        unverified_unknown_keys = remove key t.unverified_unknown_keys;
      } in
      if needs_view (lookup operation_id u.operations)
      then record_view operation_id pending none u
      else some u

  unfoldable pub record_entries : List (OperationStatusEntry G) → Mutations G → Option (Mutations G)
  unfolding record_view
  record_entries [] s = some s
  record_entries (e ∷ es) s =
      then_some (record_view e.operation_id e.status e.progress s) (record_entries es)

  unfoldable pub is_answered : String → List (OperationStatusEntry G) → Bool
  is_answered id entries = any (λ e. string_eq.beq e.operation_id id) entries

  -- The retained operations that the answer should have named.
  unfoldable pub unanswered : List (OperationStatusEntry G) → Mutations G → List String
  unfolding is_answered is_terminal
  unanswered entries s =
      retain
        (λ id.
          not (is_answered id entries)
          && if_some (lookup id s.operations) (λ view. not (is_terminal view)) false)
        s.operation_order

  unfoldable pub record_unknown : List String → Mutations G → Option (Mutations G)
  unfolding record_view
  record_unknown [] s = some s
  record_unknown (id ∷ ids) s = then_some (record_view id unknown none s) (record_unknown ids)

  -- Without the target reads that it queues at its end.
  unfoldable pub merge_operation_status :
      List (OperationStatusEntry G) → Mutations G → Option (Mutations G)
  unfolding record_entries unanswered record_unknown unverify
  merge_operation_status entries s = then_some (record_entries entries s) λ t.
      let ids = unanswered entries t in
      then_some (record_unknown ids t) λ u. some (record u {
        unverified_unknown_keys = unverify ids u.submitted_keys u.unverified_unknown_keys;
      })

  unfoldable pub is_refreshing : String → Mutations G → Bool
  is_refreshing key s =
      any (λ entry. any (λ waiting. string_eq.beq waiting key) entry.1.keys) s.target_refreshes

  unfoldable pub retry_eligibility : String → Mutations G → RetryEligibility
  unfolding is_refreshing is_terminal
  retry_eligibility key s =
      if_some (lookup key s.submitted_keys)
        (λ operation_id.
          if_some (lookup operation_id s.operations)
            (λ view.
              if is_unknown view.status && contains_key key s.unverified_unknown_keys
              then (if is_refreshing key s then refresh_pending else blocked)
              else if is_terminal view
              then eligible
              else if is_some s.operation_refresh
              then refresh_pending
              else blocked)
            eligible)
        eligible
