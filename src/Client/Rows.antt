-- ===== src/Client/Rows.antt =====
-- The rows that travel from the backend to a client: `ResourceListRow` and the deltas of
-- crates/k10s-protocol/src/resource.rs and subscription.rs, and how crates/k10s-backend/src/kernel.rs
-- makes them. A `ResourceIdentity` has the fields of a `ResourceRef`, and is one here, as is a
-- `GroupVersionKind` a `Gvk`. A projection on the wire is of any type `W`, and what makes it of the
-- backend's is an argument. A `BTreeMap` of labels is an association list.
use k10s.Base.{ℕ, String, Bool, ◌&&◌, Option, none, some, List, [], ◌∷◌, map, string_eq}
use k10s.Base.Maps.{Map, insert}
use Prim.Native.String.{◌++◌}
use k10s.Tickets.Store.{Gvk, ResourceRef}
use k10s.Watch.Rows.{same_gvk, same_namespace}
use k10s.Watch.Publisher.{ResourceRecord}

abbrev pub ResourceIdentity : Type 0
ResourceIdentity = ResourceRef

abbrev pub GroupVersionKind : Type 0
GroupVersionKind = Gvk

pub record ResourceListRow (W : Type 0) : Type 0 where
  pub identity : ResourceIdentity
  pub revision : ℕ
  pub labels : Map String
  pub summary : String
  pub created_at : String
  pub projection : Option W

pub record ResourceSnapshotPage (W : Type 0) : Type 0 where
  pub revision : ℕ
  pub rows : List (ResourceListRow W)

pub record ResourceChanged (W : Type 0) : Type 0 where
  pub identity : ResourceIdentity
  pub row : ResourceListRow W

pub record ResourceGone : Type 0 where
  pub identity : ResourceIdentity
  pub revision : ℕ

pub record ResourceWatchIdentity : Type 0 where
  pub name : String
  pub uid : String

pub record ResourceWatchSpec : Type 0 where
  pub context : String
  pub gvk : GroupVersionKind
  pub namespace : Option String
  pub identity : Option ResourceWatchIdentity

-- `as_ref().is_none_or(..)`.
abbrev pub is_none_or {ℓ} : {A : Type ℓ} → Option A → (A → Bool) → Bool
is_none_or none p = Bool.true
is_none_or (some a) p = p a

unfoldable pub spec_matches_identity : ResourceWatchSpec → ResourceIdentity → Bool
spec_matches_identity s r =
    string_eq.beq s.context r.context
    && (same_gvk s.gvk r.gvk
        && (is_none_or s.namespace (λ wanted. same_namespace (some wanted) r.namespace)
            && is_none_or s.identity
                (λ wanted. string_eq.beq wanted.name r.name && string_eq.beq wanted.uid r.uid)))

-- `as_deref().unwrap_or("")`.
abbrev text_or_empty : Option String → String
text_or_empty none = ""
text_or_empty (some s) = s

-- The texts are joined by `/`; neither the version nor the UID is among them.
unfoldable pub coalescing_key : ResourceRef → String
coalescing_key r =
    r.context
    ++ ("/"
        ++ (r.gvk.group
            ++ ("/" ++ (r.gvk.kind ++ ("/" ++ (text_or_empty r.namespace ++ ("/" ++ r.name)))))))

unfoldable pub map_gvk : Gvk → GroupVersionKind
map_gvk g = record { group = g.group; version = g.version; kind = g.kind }

unfoldable pub map_identity : ResourceRef → ResourceIdentity
unfolding map_gvk
map_identity r = record {
  context = r.context;
  gvk = map_gvk r.gvk;
  namespace = r.namespace;
  name = r.name;
  uid = r.uid;
}

-- `collect` into the map of labels.
unfoldable pub label_map : List (String × String) → Map String → Map String
label_map [] m = m
label_map ((key, value) ∷ labels) m = label_map labels (insert key value m)

abbrev pub map_option : {A B : Type 0} → (A → B) → Option A → Option B
map_option f none = none
map_option f (some a) = some (f a)

module _ {O P W : Type 0} (map_projection : P → W) where
  unfoldable pub map_row : ResourceRecord O P → ResourceListRow W
  unfolding map_identity label_map
  map_row r = record {
    identity = map_identity r.reference;
    revision = r.revision;
    labels = label_map r.labels [];
    summary = r.summary;
    created_at = r.created_at;
    projection = map_option map_projection r.projection;
  }

  unfoldable pub snapshot_page : ℕ → List (ResourceRecord O P) → ResourceSnapshotPage W
  unfolding map_row
  snapshot_page revision rows = record { revision = revision; rows = map map_row rows }

  unfoldable pub changed_delta : ResourceRecord O P → ResourceChanged W
  unfolding map_row map_identity
  changed_delta r = record { identity = map_identity r.reference; row = map_row r }

unfoldable pub gone_delta : ResourceRef → ℕ → ResourceGone
unfolding map_identity
gone_delta reference revision = record { identity = map_identity reference; revision = revision }
