-- ===== src/Outbound/Growth.antt =====
-- What the enqueues of crates/k10s-server/src/outbound.rs do to the queued sequences, with the closures
-- of crates/k10s-server/src/control.rs.
use k10s.Base.{
  ℕ, ◌+◌, ◌≡◌, refl, sym, ap, ◌∙◌, subst, inl, inr, String, Bool, Option, none, some, List, [], ◌∷◌,
  ◌++◌, arith, length, find, any, ◌==◌, if_cases, if_some_cases,
}
use k10s.Outbound.Queue.{
  Priority, p2, P2Identity, resource, recovery_barrier, SessionProtocol, Entry, Scheduler,
  update_first, has_identity,
}
use k10s.Outbound.Scheduler.{
  Built, Outcome, enqueue_sequenced, enqueue_p0_sequenced, enqueue_p2_sequenced, enqueue_p2_barrier,
  push_built, replaced, coalesce, refuses, partition_full,
}
use k10s.Outbound.Selection.{sequence_of, sequences}
use k10s.Outbound.Session.{build_fresh, build_fresh-cases, build_queued}

sequence_of-append :
    (o : Option ℕ) (ms ns : List ℕ) → sequence_of o ms ++ ns ≡ sequence_of o (ms ++ ns)
sequence_of-append none ms ns = refl
sequence_of-append (some n) ms ns = refl

module _ {M : Type 0} where
  pub sequences-append : (q r : List (Entry M)) → sequences (q ++ r) ≡ sequences q ++ sequences r
  unfolding sequences
  sequences-append [] r = refl
  sequences-append (e ∷ q) r =
      ap (sequence_of e.sequence) (sequences-append q r)
      ∙ sym (sequence_of-append e.sequence (sequences q) (sequences r))

  sequences-update_first :
      (p : Entry M → Bool) (f : Entry M → Entry M)
      → ((e : Entry M) → (f e).sequence ≡ e.sequence)
      → (q : List (Entry M)) → sequences (update_first p f q) ≡ sequences q
  unfolding sequences update_first
  sequences-update_first p f h [] = refl
  sequences-update_first p f h (e ∷ q) = ground (arith, h e, sequences-update_first p f h q)

module _ {M : Type 0} (s : Scheduler M) (c : ℕ) where
  -- What an enqueue does to the queued sequences and to the counter: nothing, or one more of each.
  pub data Grows (o : Outcome ℕ M) : Type 0 where
    kept : sequences o.0.state.queue ≡ sequences s.state.queue → o.1 ≡ c → Grows o
    grown :
        sequences o.0.state.queue ≡ sequences s.state.queue ++ (c + 1) ∷ [] → o.1 ≡ c + 1 → Grows o

module _ {M : Type 0} (prepare_message : SessionProtocol → M → M) where
  push_fresh :
      (s : Scheduler M) (c : ℕ) (p : Priority) (i : Option P2Identity) (frame : ℕ → M)
      → Grows s c (push_built prepare_message s p i (build_fresh frame c))
  unfolding sequences
  push_fresh s c p i frame = elim (build_fresh-cases frame c) [
    | inl e ↦ subst grows (sym e) (kept refl refl)
    | inr e ↦ subst grows (sym e) (grown (sequences-append s.state.queue _) refl)
  ]
    where
      grows : Built ℕ M → Type 0
      grows b = Grows s c (push_built prepare_message s p i b)

  pub enqueue_sequenced-Grows :
      (s : Scheduler M) (c : ℕ) (frame : ℕ → M)
      → Grows s c (enqueue_sequenced prepare_message (build_fresh frame) c s)
  unfolding enqueue_sequenced
  enqueue_sequenced-Grows s c frame =
      if_cases (Grows s c) (refuses s) (λ _. kept refl refl) (λ _. push_fresh s c _ _ frame)

  pub enqueue_p0_sequenced-Grows :
      (s : Scheduler M) (c : ℕ) (frame : ℕ → M)
      → Grows s c (enqueue_p0_sequenced prepare_message (build_fresh frame) c s)
  unfolding enqueue_p0_sequenced
  enqueue_p0_sequenced-Grows s c frame =
      if_cases (Grows s c) (refuses s) (λ _. kept refl refl) (λ _. push_fresh s c _ _ frame)

  pub enqueue_p2_barrier-Grows :
      (s : Scheduler M) (c : ℕ) (frame : ℕ → M)
      → Grows s c (enqueue_p2_barrier prepare_message (build_fresh frame) c s)
  unfolding enqueue_p2_barrier
  enqueue_p2_barrier-Grows s c frame =
      if_cases (Grows s c) s.state.closed (λ _. kept refl refl)
        λ _.
          if_cases (Grows s c) (any (has_identity recovery_barrier) s.state.queue)
            (λ _. kept refl refl)
            λ _.
              if_cases (Grows s c) (length s.state.queue == s.capacity) (λ _. kept refl refl)
                λ _. push_fresh s c p2 (some recovery_barrier) frame

  pub sequences-replaced :
      (s : Scheduler M) (i : P2Identity) (m : M)
      → sequences (replaced prepare_message s i m).state.queue ≡ sequences s.state.queue
  sequences-replaced s i m = sequences-update_first (has_identity i) _ (λ e. refl) s.state.queue

  coalesce-Grows :
      (s : Scheduler M) (c : ℕ) (i : P2Identity) (frame : ℕ → M) (o : Option ℕ)
      → Grows s c (coalesce prepare_message (build_queued frame) c s i o)
  unfolding build_queued
  coalesce-Grows s c i frame none = kept refl refl
  coalesce-Grows s c i frame (some n) = kept (sequences-replaced s i (frame n)) refl

  pub enqueue_p2_sequenced-Grows :
      (s : Scheduler M) (c : ℕ) (t r : String) (frame : ℕ → M)
      → Grows s c (enqueue_p2_sequenced prepare_message t r (build_queued frame) c s)
  unfolding enqueue_p2_sequenced build_queued
  enqueue_p2_sequenced-Grows s c t r frame =
      if_cases (Grows s c) s.state.closed (λ _. kept refl refl)
        λ _.
          if_some_cases (Grows s c) (find (has_identity (resource (some t) r)) s.state.queue)
            (λ e found. coalesce-Grows s c _ frame e.sequence)
            λ _.
              if_cases (Grows s c) (partition_full s) (λ _. kept refl refl)
                λ _. push_fresh s c _ _ frame
