-- ===== src/Outbound/Delivery.antt =====
-- What one pass of `recv` in crates/k10s-server/src/outbound.rs delivers.
use k10s.Base.{
  ℕ, suc, ◌≤◌, ◌≡◌, refl, ◌⊎◌, inl, inr, true, false, Option, none, some, List, [], ◌∷◌, All,
  or_else, if◌then◌else◌,
}
use native.Mathlib.Nat.{zero-add}
use k10s.Outbound.Queue.{
  Entry, Scheduler, remove_at, unsequenced_p0, unsequenced_p1, next_index, second, head_index,
}
use k10s.Outbound.Scheduler.{Received, recv, item, finished, waiting, with_queue, take_index}
use k10s.Outbound.Selection.{
  IsSplit, Position, Least, sequences, position-Position, min_sequence-Least,
}

-- The entry that is due: the first unsequenced P0, else the first unsequenced P1, else the one with
-- the least sequence, else the oldest.
pub data IsDue {M : Type 0} (q : List (Entry M)) (e : Entry M) (rest : List (Entry M))
    : Type 0 where
  urgent :
      (front : List (Entry M))
      → IsSplit q e front rest
      → unsequenced_p0 e ≡ true
      → All (λ x. unsequenced_p0 x ≡ false) front
      → IsDue q e rest
  response :
      (front : List (Entry M))
      → IsSplit q e front rest
      → All (λ x. unsequenced_p0 x ≡ false) q
      → unsequenced_p1 e ≡ true
      → All (λ x. unsequenced_p1 x ≡ false) front
      → IsDue q e rest
  ordered :
      (front : List (Entry M))
      → IsSplit q e front rest
      → All (λ x. unsequenced_p0 x ≡ false) q
      → All (λ x. unsequenced_p1 x ≡ false) q
      → (n : ℕ) → e.sequence ≡ some n
      → All (λ m. n ≤ m) (sequences q)
      → All (λ m. suc n ≤ m) (sequences front)
      → IsDue q e rest
  oldest :
      All (λ x. unsequenced_p0 x ≡ false) q
      → All (λ x. unsequenced_p1 x ≡ false) q
      → sequences q ≡ []
      → q ≡ e ∷ rest
      → IsDue q e rest

module _ {M : Type 0} where
  -- The result of a pass over the queue of `s`.
  abbrev pub Delivers : Scheduler M → Scheduler M × Received M → Type 0
  Delivers s r =
      ((s.state.queue ≡ []) × (r ≡ (s, if s.state.closed then finished else waiting)))
      ⊎ ((e : Entry M) × (rest : List (Entry M)) × (r ≡ (with_queue s rest, item e))
          × IsDue s.state.queue e rest)

  taken :
      (s : Scheduler M) (i : ℕ) (e : Entry M) (rest : List (Entry M))
      → remove_at s.state.queue i ≡ some (e, rest)
      → IsDue s.state.queue e rest
      → Delivers s (take_index s (some i))
  taken s i e rest h d = inr (e, rest, rw (h, take_index), d)

  deliver_oldest :
      (s : Scheduler M) (q : List (Entry M))
      → s.state.queue ≡ q
      → All (λ x. unsequenced_p0 x ≡ false) s.state.queue
      → All (λ x. unsequenced_p1 x ≡ false) s.state.queue
      → sequences s.state.queue ≡ []
      → Delivers s (take_index s (head_index q))
  unfolding remove_at
  deliver_oldest s [] h a b c = inl (h, refl)
  deliver_oldest s (e ∷ q) h a b c = inr (e, q, rw (h, take_index), oldest a b c h)

  deliver_from :
      (s : Scheduler M) (a b : Option ℕ) (c : Option (ℕ × ℕ))
      → Position unsequenced_p0 s.state.queue a
      → Position unsequenced_p1 s.state.queue b
      → Least s.state.queue 0 c
      → Delivers s
          (take_index s (or_else a (or_else b (or_else (second c) (head_index s.state.queue)))))
  deliver_from s (some i) b c f g l =
      taken s i f.value f.rest f.removed (urgent f.front f.split f.passes f.before)
  deliver_from s none (some i) c f g l =
      taken s i g.value g.rest g.removed (response g.front g.split f g.passes g.before)
  deliver_from s none none (some (n, i)) f g (j, e, l) =
      taken s i l.value l.rest (rw (e, zero-add) l.removed)
        (ordered l.front l.split f g n l.numbered l.least l.before)
  deliver_from s none none none f g l = deliver_oldest s s.state.queue refl f g l

  -- A receive takes the due entry and keeps the order of the others; it fails only on an empty queue.
  pub recv-Delivers : (s : Scheduler M) → Delivers s (recv s)
  unfolding recv next_index
  recv-Delivers s =
      deliver_from s _ _ _ (position-Position _ _) (position-Position _ _) (min_sequence-Least 0 _)
