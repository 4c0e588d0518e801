-- ===== src/Outbound/Admission.antt =====
-- Who is admitted to the queue of crates/k10s-server/src/outbound.rs, and what coalescing leaves in it.
use k10s.Base.{
  ℕ, ◌+◌, ◌<◌, ◌≡◌, refl, sym, subst, Bool, true, false, not, Option, none, some, List, [], ◌∷◌,
  ◌++◌, arith, length, count_where, find, if_cases, if_some_cases, Reply, ok, err, panic, String,
  string_eq, inl, inr,
}
use k10s.Outbound.Queue.{
  Priority, p2, EnqueueError, P2Identity, resource, recovery_barrier, SessionProtocol, Entry,
  Scheduler, has_identity, is_resource, same_identity, update_first,
}
use k10s.Outbound.Scheduler.{
  Built, Outcome, coalesce, enqueue, enqueue_p2, enqueue_sequenced, enqueue_p0_sequenced,
  enqueue_p2_sequenced, refuses, partition_full, push_built, replaced, queued,
}
use k10s.Outbound.Safety.{IsWellFormed}
use k10s.Outbound.Session.{build_fresh, build_fresh-cases, build_queued}
use text.Mathlib.TextEquality.{eq_iff}

-- The entries that do not count against the partition of coalescible ones.
abbrev pub is_reliable : {M : Type 0} → Entry M → Bool
is_reliable e = not (is_resource e)

same_identity_refl : (i : P2Identity) → same_identity i i ≡ true
unfolding same_identity
same_identity_refl (resource none r) = ground (arith, eq_iff r r)
same_identity_refl (resource (some t) r) = ground (arith, eq_iff r r, eq_iff t t)
same_identity_refl recovery_barrier = refl

module _ {M : Type 0} where
  length-eq-counts :
      (q : List (Entry M)) → length q ≡ count_where is_resource q + count_where is_reliable q
  length-eq-counts [] = omega arith
  length-eq-counts (e ∷ q) = ground (arith, length-eq-counts q)

  reserve_room :
      (s : Scheduler M)
      → IsWellFormed s
      → s.state.closed ≡ false
      → count_where is_reliable s.state.queue < s.reliable_reserve
      → refuses s ≡ false
  unfolding refuses
  reserve_room s h open_queue r =
      let split = length-eq-counts s.state.queue in
      let partition = h.sound.partition in
      let reserve = h.reserve in ground (arith, split, partition, reserve, open_queue)

  find-update_first :
      (p : Entry M → Bool) (f : Entry M → Entry M)
      → ((e : Entry M) → p (f e) ≡ p e)
      → (q : List (Entry M)) (e : Entry M) → find p q ≡ some e
      → find p (update_first p f q) ≡ some (f e)
  unfolding update_first
  find-update_first p f k [] e h = cc
  find-update_first p f k (x ∷ q) e h = ground (arith, k x, find-update_first p f k q e)

  find-append :
      (p : Entry M → Bool) (q : List (Entry M)) (e : Entry M)
      → find p q ≡ none
      → p e ≡ true
      → find p (q ++ e ∷ []) ≡ some e
  find-append p [] e h k = ground arith
  find-append p (x ∷ q) e h k = ground (arith, find-append p q e)

module _ {M : Type 0} (prepare_message : SessionProtocol → M → M) (s : Scheduler M) where
  -- While the entries that are not coalescible take less than the reserve, an open queue admits one
  -- more of them, however much coalescible traffic is queued: `enqueue` and both sequenced enqueues
  -- whose closure succeeds answer `ok`.
  pub reserve_admits :
      {W : Type 0} (p : Priority) (m : M) (build : W → Built W M) (w w' : W) (n : ℕ)
      → IsWellFormed s
      → s.state.closed ≡ false
      → count_where is_reliable s.state.queue < s.reliable_reserve
      → build w ≡ (ok (n, m), w')
      → ((enqueue prepare_message p m s).1 ≡ ok tt)
        × ((enqueue_sequenced prepare_message build w s).2 ≡ ok tt)
        × ((enqueue_p0_sequenced prepare_message build w s).2 ≡ ok tt)
  unfolding enqueue enqueue_sequenced enqueue_p0_sequenced
  reserve_admits p m build w w' n h o r b =
      let room = reserve_room s h o r in rw (room, b) (refl, refl, refl)

  -- The entry of `i` holds the text of `m`, or the queue is as it was.
  abbrev pub Latest : P2Identity → M → Scheduler M × Reply EnqueueError (Unit {0}) → Type 0
  Latest i m (t, ok u) =
      (e : Entry M) × (find (has_identity i) t.state.queue ≡ some e)
      × (e.message ≡ prepare_message s.protocol m)
  Latest i m (t, err e) = t ≡ s
  Latest i m (t, panic) = ⊥

  replaced-find :
      (i : P2Identity) (m : M) (e : Entry M)
      → find (has_identity i) s.state.queue ≡ some e
      → find (has_identity i) (replaced prepare_message s i m).state.queue
        ≡ some (record e { message = prepare_message s.protocol m })
  unfolding has_identity
  replaced-find i m e f =
      find-update_first (has_identity i) (λ x. record x { message = prepare_message s.protocol m })
        (λ x. refl) s.state.queue e f

  queued-find :
      (p : Priority) (m : M) (i : P2Identity) (n : Option ℕ)
      → find (has_identity i) s.state.queue ≡ none
      → find (has_identity i) (queued prepare_message s p m (some i) n).state.queue
        ≡ some (record {
          priority = p;
          message = prepare_message s.protocol m;
          p2_identity = some i;
          sequence = n;
        })
  unfolding has_identity
  queued-find p m i n f = find-append (has_identity i) s.state.queue _ f (same_identity_refl i)

  -- An admitted coalescible message is the one that the queue holds for its resource, whether it took
  -- a new place or an old one; a refused one leaves the scheduler as it was.
  pub enqueue_p2-Latest :
      (r : String) (m : M) → Latest (resource none r) m (enqueue_p2 prepare_message r m s)
  unfolding enqueue_p2
  enqueue_p2-Latest r m =
      if_cases (Latest (resource none r) m) s.state.closed (λ _. refl)
        λ _.
          if_some_cases (Latest (resource none r) m)
            (find (has_identity (resource none r)) s.state.queue)
            (λ e f. (_, replaced-find (resource none r) m e f, refl))
            λ f.
              if_cases (Latest (resource none r) m) (partition_full s) (λ _. refl)
                (λ _. (_, queued-find p2 m (resource none r) none f, refl))

  -- The sequence of a slot that held an entry before is that entry's, and the counter stays; a new slot
  -- has the next one.
  abbrev pub Renumbers : Option (Entry M) → ℕ → ℕ → ℕ → Type 0
  Renumbers none c n d = (n ≡ c + 1) × (d ≡ c + 1)
  Renumbers (some e) c n d = (e.sequence ≡ some n) × (d ≡ c)

  -- The entry of `i` holds the frame that is numbered with its own sequence, or nothing was queued.
  abbrev pub Numbered : P2Identity → (ℕ → M) → ℕ → Outcome ℕ M → Type 0
  Numbered i frame c (t, d, ok u) =
      (e : Entry M) × (n : ℕ) × (find (has_identity i) t.state.queue ≡ some e)
      × (e.sequence ≡ some n)
      × (e.message ≡ prepare_message s.protocol (frame n))
      × Renumbers (find (has_identity i) s.state.queue) c n d
  Numbered i frame c (t, d, err e) = (t ≡ s) × (d ≡ c)
  Numbered i frame c (t, d, panic) = (t ≡ s) × (d ≡ c)

  coalesce-Numbered :
      (i : P2Identity) (frame : ℕ → M) (c : ℕ) (e : Entry M) (o : Option ℕ)
      → find (has_identity i) s.state.queue ≡ some e
      → e.sequence ≡ o
      → Numbered i frame c (coalesce prepare_message (build_queued frame) c s i o)
  unfolding build_queued
  coalesce-Numbered i frame c e none f h = (refl, refl)
  coalesce-Numbered i frame c e (some n) f h =
      (_, n, replaced-find i (frame n) e f, h, refl, rw f (h, refl))

  push_fresh-Numbered :
      (p : Priority) (i : P2Identity) (frame : ℕ → M) (c : ℕ)
      → find (has_identity i) s.state.queue ≡ none
      → Numbered i frame c (push_built prepare_message s p (some i) (build_fresh frame c))
  push_fresh-Numbered p i frame c f = elim (build_fresh-cases frame c) [
    | inl e ↦ subst numbered (sym e) (refl, refl)
    | inr e ↦
        subst numbered (sym e) (_, c + 1, queued-find p _ i _ f, refl, refl, rw f (refl, refl))
  ]
    where
      numbered : Built ℕ M → Type 0
      numbered b = Numbered i frame c (push_built prepare_message s p (some i) b)

  -- An admitted delta leaves in its slot the frame that carries the slot's own sequence: the queued
  -- sequence, and the counter stays, where it replaces an entry; the next sequence of the counter where
  -- it takes a new place. A refused one leaves the scheduler and the counter as they were.
  pub enqueue_p2_sequenced-Numbered :
      (t r : String) (frame : ℕ → M) (c : ℕ)
      → Numbered
          (resource (some t) r)
          frame
          c
          (enqueue_p2_sequenced prepare_message t r (build_queued frame) c s)
  unfolding enqueue_p2_sequenced build_queued
  enqueue_p2_sequenced-Numbered t r frame c =
      let i = resource (some t) r in
      if_cases (Numbered i frame c) s.state.closed (λ _. (refl, refl))
        λ _.
          if_some_cases (Numbered i frame c) (find (has_identity i) s.state.queue)
            (λ e f. coalesce-Numbered i frame c e e.sequence f refl)
            λ f.
              if_cases (Numbered i frame c) (partition_full s) (λ _. (refl, refl))
                (λ _. push_fresh-Numbered p2 i frame c f)
