-- ===== src/Client/MutationHistory.antt =====
-- Histories of the operations and keys of crates/k10s-ui/src/client/state.rs.
use k10s.Base.{
  ◌≡◌, ◌∙◌, refl, ap, String, Option, none, some, List, [], ◌∷◌, if_some, if_cases, string_eq,
}
use k10s.Base.Maps.{lookup, insert, remove}
use k10s.Client.Rows.{ResourceIdentity}
use k10s.Client.Operations.{
  OperationStatus, Mutations, OperationStatusEntry, pending, unknown, retain_key, accept_command,
  record_view, then_some, needs_view, record_entries, record_unknown, unanswered,
  merge_operation_status,
}
use k10s.Client.KeyRetention.{IsKeyed, retain_key-Keyed}
use k10s.Client.Retention.{IsRetained, record_view-Recorded}

module _ {G : Type 0} where
  -- A call ends, with the operations and the keys within their bounds.
  pub record Ends (result : Option (Mutations G)) : Type 0 where
    pub after : Mutations G
    pub ends : result ≡ some after
    pub retained : IsRetained after
    pub keyed : IsKeyed after

  some-Ends : (s : Mutations G) → IsRetained s → IsKeyed s → Ends (some s)
  some-Ends s r k = record { after = s; ends = refl; retained = r; keyed = k }

  then-Ends :
      (result : Option (Mutations G)) (f : Mutations G → Option (Mutations G))
      → Ends result
      → ((s : Mutations G) → IsRetained s → IsKeyed s → Ends (f s))
      → Ends (then_some result f)
  then-Ends result f e g =
      let next = g e.after e.retained e.keyed in
      record {
        after = next.after;
        ends = ap (λ r. then_some r f) e.ends ∙ next.ends;
        retained = next.retained;
        keyed = next.keyed;
      }

  record_view-Ends :
      (id : String) (status : OperationStatus) (progress : Option G) (s : Mutations G)
      → IsRetained s
      → IsKeyed s
      → Ends (record_view id status progress s)
  record_view-Ends id status progress s r k =
      let e = record_view-Recorded id status progress s r in
      record {
        after = record s { operations = e.operations; operation_order = e.ids };
        ends = e.ends;
        retained = record { within = e.bounded; orders = e.ordered };
        keyed = record { within = k.within; orders = k.orders; distinct = k.distinct };
      }

  accept_command-Ends :
      (key operation_id : String) (target : Option ResourceIdentity) (s : Mutations G)
      → IsRetained s
      → IsKeyed s
      → Ends (accept_command key operation_id target s)
  unfolding accept_command
  accept_command-Ends key operation_id target s r k =
      let e = retain_key-Keyed key operation_id s k in
      then-Ends (retain_key key operation_id s) _
        (record {
          after = e.after;
          ends = e.ends;
          retained =
              (let ops = e.operations in
                let order = e.order in
                record { within = rw ops r.within; orders = rw (ops, order) r.orders });
          keyed = e.keyed;
        })
        (λ t rt kt.
          let u : Mutations G = record t {
            submitted_targets =
                if_some target (λ x. insert key x t.submitted_targets) t.submitted_targets;
            unverified_unknown_keys = remove key t.unverified_unknown_keys;
          } in
          let ru : IsRetained u = record { within = rt.within; orders = rt.orders } in
          let ku : IsKeyed u = record {
            within = kt.within;
            orders = kt.orders;
            distinct = kt.distinct;
          } in
          if_cases Ends (needs_view (lookup operation_id u.operations))
            (λ _. record_view-Ends operation_id pending none u ru ku) (λ _. some-Ends u ru ku))

  record_entries-Ends :
      (entries : List (OperationStatusEntry G)) (s : Mutations G)
      → IsRetained s
      → IsKeyed s
      → Ends (record_entries entries s)
  unfolding record_entries
  record_entries-Ends [] s r k = some-Ends s r k
  record_entries-Ends (x ∷ xs) s r k =
      then-Ends (record_view x.operation_id x.status x.progress s) (record_entries xs)
        (record_view-Ends x.operation_id x.status x.progress s r k)
        (λ t rt kt. record_entries-Ends xs t rt kt)

  record_unknown-Ends :
      (ids : List String) (s : Mutations G) → IsRetained s → IsKeyed s → Ends (record_unknown ids s)
  unfolding record_unknown
  record_unknown-Ends [] s r k = some-Ends s r k
  record_unknown-Ends (x ∷ xs) s r k =
      then-Ends (record_view x unknown none s) (record_unknown xs)
        (record_view-Ends x unknown none s r k) (λ t rt kt. record_unknown-Ends xs t rt kt)

  merge-Ends :
      (entries : List (OperationStatusEntry G)) (s : Mutations G)
      → IsRetained s
      → IsKeyed s
      → Ends (merge_operation_status entries s)
  unfolding merge_operation_status
  merge-Ends entries s r k =
      then-Ends (record_entries entries s) _ (record_entries-Ends entries s r k) (λ t rt kt.
        then-Ends (record_unknown (unanswered entries t) t) _
          (record_unknown-Ends (unanswered entries t) t rt kt)
          (λ u ru ku.
            some-Ends _ (record { within = ru.within; orders = ru.orders })
              (record { within = ku.within; orders = ku.orders; distinct = ku.distinct })))

-- What reaches the operations: the answer to a command, an update that the server pushes, and the
-- answer to a refresh.
pub data MutationCall (G : Type 0) : Type 0 where
  accepts : String → String → Option ResourceIdentity → MutationCall G
  updates : String → OperationStatus → Option G → MutationCall G
  answers : List (OperationStatusEntry G) → MutationCall G

module _ {G : Type 0} where
  unfoldable pub mutate : MutationCall G → Mutations G → Option (Mutations G)
  mutate (accepts key id target) s = accept_command key id target s
  mutate (updates id status progress) s = record_view id status progress s
  mutate (answers entries) s = merge_operation_status entries s

  unfoldable pub mutate_all : List (MutationCall G) → Mutations G → Option (Mutations G)
  unfolding mutate
  mutate_all [] s = some s
  mutate_all (c ∷ cs) s = then_some (mutate c s) (mutate_all cs)

  -- From a state within the bounds, any history of accepted commands, updates and refreshes ends, no
  -- eviction loop runs without end, and the client retains at most 128 operations and 64 keys, each of
  -- them named by its order.
  pub mutate_all-Ends :
      (cs : List (MutationCall G)) (s : Mutations G)
      → IsRetained s
      → IsKeyed s
      → Ends (mutate_all cs s)
  unfolding mutate_all
  mutate_all-Ends [] s r k = some-Ends s r k
  mutate_all-Ends (accepts key id target ∷ cs) s r k =
      then-Ends (accept_command key id target s) (mutate_all cs)
        (accept_command-Ends key id target s r k) (λ t rt kt. mutate_all-Ends cs t rt kt)
  mutate_all-Ends (updates id status progress ∷ cs) s r k =
      then-Ends (record_view id status progress s) (mutate_all cs)
        (record_view-Ends id status progress s r k) (λ t rt kt. mutate_all-Ends cs t rt kt)
  mutate_all-Ends (answers entries ∷ cs) s r k =
      then-Ends (merge_operation_status entries s) (mutate_all cs) (merge-Ends entries s r k)
        (λ t rt kt. mutate_all-Ends cs t rt kt)
