-- ===== src/Client/Lists.antt =====
-- `ResourceListState` of crates/k10s-ui/src/client/state.rs: the retained rows of one watch. The row
-- map is an association list, whose order is not the order of the identities.
use k10s.Base.{ℕ, Option, none, some, List, [], ◌∷◌, leb, if◌then◌else◌}
use k10s.Tickets.Store.{ResourceRef}
use k10s.Watch.Rows.{insert_ref, remove_ref}
use k10s.Client.Rows.{ResourceIdentity, ResourceListRow, ResourceChanged, ResourceGone, is_none_or}

pub record ResourceListState (W : Type 0) : Type 0 where
  pub revision : Option ℕ
  pub rows : List (ResourceRef × ResourceListRow W)

module _ {W : Type 0} where
  abbrev pub default : ResourceListState W
  default = record { revision = none; rows = [] }

  -- `collect` into the map: a later row replaces an earlier one of its identity.
  unfoldable pub collect :
      List (ResourceListRow W)
      → List (ResourceRef × ResourceListRow W)
      → List (ResourceRef × ResourceListRow W)
  collect [] m = m
  collect (row ∷ rows) m = collect rows (insert_ref row.identity row m)

  unfoldable pub apply_snapshot :
      ℕ → List (ResourceListRow W) → ResourceListState W → ResourceListState W
  apply_snapshot revision rows s = record { revision = some revision; rows = collect rows [] }

  unfoldable pub apply_changed :
      ResourceIdentity → ResourceListRow W → ResourceListState W → ResourceListState W
  apply_changed identity row s =
      if is_none_or s.revision (λ applied. leb row.revision applied)
      then s
      else record { revision = some row.revision; rows = insert_ref identity row s.rows }

  unfoldable pub apply_gone : ResourceIdentity → ℕ → ResourceListState W → ResourceListState W
  apply_gone identity revision s =
      if is_none_or s.revision (λ applied. leb revision applied)
      then s
      else record { revision = some revision; rows = remove_ref identity s.rows }

-- A delta of the wire.
pub data ListDelta (W : Type 0) : Type 0 where
  changed : ResourceChanged W → ListDelta W
  gone : ResourceGone → ListDelta W

module _ {W : Type 0} where
  unfoldable pub apply_delta : ListDelta W → ResourceListState W → ResourceListState W
  apply_delta (changed delta) s = apply_changed delta.identity delta.row s
  apply_delta (gone delta) s = apply_gone delta.identity delta.revision s

  unfoldable pub apply_deltas : List (ListDelta W) → ResourceListState W → ResourceListState W
  apply_deltas [] s = s
  apply_deltas (d ∷ ds) s = apply_deltas ds (apply_delta d s)
