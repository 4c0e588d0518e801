-- ===== src/Watch/Rows.antt =====
-- The rows of a selection, keyed by their identity: `WatchSelector` of crates/k10s-backend/src/watch.rs,
-- `record_from_row` and the row map of runtime/cache.rs. A `BTreeMap` is an association list, whose
-- order is not the order of the keys.
use k10s.Base.{
  ◌≡◌, ◌↔◌, refl, String, Bool, true, false, ◌&&◌, Option, none, some, List, [], ◌∷◌, arith,
  if◌then◌else◌, string_eq,
}
use text.Mathlib.TextEquality.{eq_iff}
use k10s.Tickets.Store.{Gvk, ResourceRef}

unfoldable pub same_gvk : Gvk → Gvk → Bool
same_gvk a b =
    string_eq.beq a.group b.group
    && (string_eq.beq a.version b.version && string_eq.beq a.kind b.kind)

unfoldable pub same_namespace : Option String → Option String → Bool
same_namespace none none = true
same_namespace none (some b) = false
same_namespace (some a) none = false
same_namespace (some a) (some b) = string_eq.beq a b

unfoldable pub same_ref : ResourceRef → ResourceRef → Bool
same_ref a b =
    string_eq.beq a.context b.context
    && (same_gvk a.gvk b.gvk
        && (same_namespace a.namespace b.namespace
            && (string_eq.beq a.name b.name && string_eq.beq a.uid b.uid)))

same_namespace_iff : (a b : Option String) → (same_namespace a b ≡ true) ↔ (a ≡ b)
unfolding same_namespace
same_namespace_iff none none = ((λ h. refl), (λ h. refl))
same_namespace_iff none (some b) = ((λ h. cc), (λ h. cc))
same_namespace_iff (some a) none = ((λ h. cc), (λ h. cc))
same_namespace_iff (some a) (some b) = ground (arith, eq_iff a b)

same_gvk_iff : (a b : Gvk) → (same_gvk a b ≡ true) ↔ (a ≡ b)
unfolding same_gvk
same_gvk_iff a b =
    grind (arith, eq_iff a.group b.group, eq_iff a.version b.version, eq_iff a.kind b.kind)

pub same_ref_iff : (a b : ResourceRef) → (same_ref a b ≡ true) ↔ (a ≡ b)
unfolding same_ref
same_ref_iff a b = grind (
  arith,
  eq_iff a.context b.context,
  same_gvk_iff a.gvk b.gvk,
  same_namespace_iff a.namespace b.namespace,
  eq_iff a.name b.name,
  eq_iff a.uid b.uid,
)

pub record WatchSelector : Type 0 where
  pub context : String
  pub gvk : Gvk
  pub namespace : Option String
  pub identity : Option ResourceRef

-- `is_none_or`.
abbrev none_or {ℓ} : {A : Type ℓ} → Option A → (A → Bool) → Bool
none_or none p = true
none_or (some a) p = p a

unfoldable pub matches : WatchSelector → ResourceRef → Bool
matches s r =
    string_eq.beq r.context s.context
    && (same_gvk r.gvk s.gvk
        && (none_or s.namespace (λ watched. same_namespace (some watched) r.namespace)
            && none_or s.identity (λ wanted. same_ref wanted r)))

module _ {R : Type 0} where
  unfoldable pub lookup_ref : ResourceRef → List (ResourceRef × R) → Option R
  lookup_ref k [] = none
  lookup_ref k ((j, r) ∷ m) = if same_ref j k then some r else lookup_ref k m

  unfoldable pub insert_ref : ResourceRef → R → List (ResourceRef × R) → List (ResourceRef × R)
  insert_ref k r [] = (k, r) ∷ []
  insert_ref k r ((j, q) ∷ m) = if same_ref j k then (j, r) ∷ m else (j, q) ∷ insert_ref k r m

  unfoldable pub remove_ref : ResourceRef → List (ResourceRef × R) → List (ResourceRef × R)
  remove_ref k [] = []
  remove_ref k ((j, q) ∷ m) =
      let rest = remove_ref k m in if same_ref j k then rest else (j, q) ∷ rest

  pub lookup_ref-insert_ref :
      (k j : ResourceRef) (r : R) (m : List (ResourceRef × R))
      → lookup_ref j (insert_ref k r m) ≡ (if same_ref k j then some r else lookup_ref j m)
  unfolding lookup_ref insert_ref
  lookup_ref-insert_ref k j r [] = refl
  lookup_ref-insert_ref k j r ((i, q) ∷ m) =
      ground
        (arith, same_ref_iff k j, same_ref_iff i k, same_ref_iff i j, lookup_ref-insert_ref k j r m)

  pub lookup_ref-remove_ref :
      (k j : ResourceRef) (m : List (ResourceRef × R))
      → lookup_ref j (remove_ref k m) ≡ (if same_ref k j then none else lookup_ref j m)
  unfolding lookup_ref remove_ref
  lookup_ref-remove_ref k j [] = ground arith
  lookup_ref-remove_ref k j ((i, q) ∷ m) =
      ground
        (arith, lookup_ref-remove_ref k j m, same_ref_iff i k, same_ref_iff i j, same_ref_iff k j)
