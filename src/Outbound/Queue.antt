-- ===== src/Outbound/Queue.antt =====
-- The data of crates/k10s-server/src/outbound.rs, and what `recv` and the coalescing enqueues look up
-- in the queue. The queue is a list, its front first.
use k10s.Base.{
  ℕ, zero, suc, String, Bool, true, false, ◌&&◌, Option, none, some, List, [], ◌∷◌, leb,
  if◌then◌else◌, is_none, or_else, string_eq,
}

pub data Priority : Type 0 where
  p0 p1 p2 : Priority

pub data EnqueueError : Type 0 where
  overloaded coalesced : EnqueueError

pub data P2Identity : Type 0 where
  resource : Option String → String → P2Identity
  recovery_barrier : P2Identity

-- The policy of compatibility.rs: the negotiated minor version.
pub record SessionProtocol : Type 0 where
  pub minor : ℕ

pub record Entry (M : Type 0) : Type 0 where
  pub priority : Priority
  pub message : M
  pub p2_identity : Option P2Identity
  pub sequence : Option ℕ

pub record State (M : Type 0) : Type 0 where
  pub queue : List (Entry M)
  pub closed : Bool

pub record Scheduler (M : Type 0) : Type 0 where
  pub capacity : ℕ
  pub reliable_reserve : ℕ
  pub state : State M
  pub protocol : SessionProtocol

abbrev same_subscription : Option String → Option String → Bool
same_subscription none none = true
same_subscription (some a) (some b) = string_eq.beq a b
same_subscription _ _ = false

-- The derived `PartialEq` of `P2Identity`.
unfoldable pub same_identity : P2Identity → P2Identity → Bool
same_identity (resource s r) (resource t q) = same_subscription s t && string_eq.beq r q
same_identity recovery_barrier recovery_barrier = true
same_identity _ _ = false

-- `matches!(entry.p2_identity.as_ref(), Some(P2Identity::Resource { .. }))`.
abbrev pub resource_identity : Option P2Identity → Bool
resource_identity (some (resource s r)) = true
resource_identity (some recovery_barrier) = false
resource_identity none = false

-- `entry.p2_identity.as_ref() == Some(&identity)`.
abbrev pub identified : P2Identity → Option P2Identity → Bool
identified i (some j) = same_identity j i
identified i none = false

module _ {M : Type 0} where
  unfoldable pub is_resource : Entry M → Bool
  is_resource e = resource_identity e.p2_identity

  unfoldable pub has_identity : P2Identity → Entry M → Bool
  has_identity i e = identified i e.p2_identity

  -- The in-place write of the first entry that `iter_mut().find` meets.
  unfoldable pub update_first :
      (Entry M → Bool) → (Entry M → Entry M) → List (Entry M) → List (Entry M)
  update_first p f [] = []
  update_first p f (e ∷ q) = let rest = update_first p f q in if p e then f e ∷ q else e ∷ rest

-- `Iterator::position`.
unfoldable pub position {ℓ} : {A : Type ℓ} → (A → Bool) → List A → Option ℕ
position p [] = none
position p (x ∷ xs) = elim (p x) [
  | true ↦ some 0
  | false ↦ elim (position p xs) [ none ↦ none | some i ↦ some (suc i) ]
]

-- `VecDeque::remove`, with the entry and what is left.
unfoldable pub remove_at {ℓ} : {A : Type ℓ} → List A → ℕ → Option (A × List A)
remove_at [] i = none
remove_at (x ∷ xs) zero = some (x, xs)
remove_at (x ∷ xs) (suc i) = elim (remove_at xs i) [ none ↦ none | some (y, ys) ↦ some (y, x ∷ ys) ]

abbrev pub second : Option (ℕ × ℕ) → Option ℕ
second none = none
second (some (n, i)) = some i

abbrev is_p0 : Priority → Bool
is_p0 p0 = true
is_p0 _ = false

abbrev is_p1 : Priority → Bool
is_p1 p1 = true
is_p1 _ = false

module _ {M : Type 0} where
  unfoldable pub unsequenced_p0 : Entry M → Bool
  unsequenced_p0 e = is_p0 e.priority && is_none e.sequence

  unfoldable pub unsequenced_p1 : Entry M → Bool
  unsequenced_p1 e = is_p1 e.priority && is_none e.sequence

  -- `enumerate().filter_map(..).min_by_key(..)`: the first entry with the least sequence, as the
  -- pair of its sequence and its index. The first argument is the index of the list's head.
  unfoldable pub min_sequence : ℕ → List (Entry M) → Option (ℕ × ℕ)
  min_sequence i [] = none
  min_sequence i (e ∷ q) = elim e.sequence [
    | none ↦ min_sequence (suc i) q
    | some n ↦ elim (min_sequence (suc i) q) [
      | none ↦ some (n, i)
      | some (m, j) ↦ if leb n m then some (n, i) else some (m, j)
    ]
  ]

  abbrev pub head_index : List (Entry M) → Option ℕ
  head_index [] = none
  head_index (e ∷ q) = some 0

  unfoldable pub next_index : List (Entry M) → Option ℕ
  next_index q =
      or_else (position unsequenced_p0 q)
        (or_else (position unsequenced_p1 q) (or_else (second (min_sequence 0 q)) (head_index q)))
