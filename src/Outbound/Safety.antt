-- ===== src/Outbound/Safety.antt =====
-- Every operation of crates/k10s-server/src/outbound.rs keeps the queue within its bounds, and no `expect`
-- of that file fails.
use k10s.Base.{
  ℕ, ◌-◌, ◌≤◌, ◌<◌, ◌≡◌, ◌≢◌, refl, true, false, Option, none, some, arith, All-find, length,
  count_where, count_where_of_find, count_where_of_any, find, any, if_cases, is_some, if_some_cases,
  ◌==◌, Reply, ok, err, panic, subst, String,
}
use k10s.Outbound.Queue.{
  Priority, p0, p1, p2, EnqueueError, P2Identity, resource, recovery_barrier, SessionProtocol,
  Entry, Scheduler, has_identity, is_resource, resource_identity, identified, same_identity,
}
use k10s.Outbound.Scheduler.{
  Built, Outcome, new, enqueue, enqueue_p2, enqueue_sequenced, enqueue_p0_sequenced,
  enqueue_p2_sequenced, enqueue_p2_barrier, push_built, replaced, replace_built, coalesce, refuses,
  partition_full, queued,
}
use k10s.Outbound.Bounds.{
  IsSound, KeepsSequence, eq_of_same_identity, of_subscription, append-IsSound, replace-IsSound,
}

-- A scheduler whose queue is within the bounds of its own capacity and reserve.
pub record IsWellFormed {M : Type 0} (s : Scheduler M) : Type 0 where
  pub positive : 1 ≤ s.capacity
  pub reserve : s.reliable_reserve ≤ s.capacity
  pub sound : IsSound s.capacity s.reliable_reserve s.state.queue

module _ {M : Type 0} where
  pub new-IsWellFormed :
      (capacity reserve : ℕ) (protocol : SessionProtocol)
      → IsWellFormed {M = M} (new capacity reserve protocol)
  unfolding new
  new-IsWellFormed capacity reserve protocol = record {
    positive = omega arith;
    reserve = omega arith;
    sound = record {
      room = omega arith;
      partition = omega arith;
      unique = λ i. omega arith;
      retained = tt;
    };
  }

-- What the end of the queue must offer to an entry with this identity and sequence.
record HasRoom {M : Type 0} (s : Scheduler M) (i : Option P2Identity) (n : Option ℕ) : Type 0 where
  room : length s.state.queue < s.capacity
  partition :
      resource_identity i ≡ true
      → count_where is_resource s.state.queue < s.capacity - s.reliable_reserve
  fresh : (j : P2Identity) → identified j i ≡ true → count_where (has_identity j) s.state.queue ≡ 0
  numbered : of_subscription i ≡ true → is_some n ≡ true

module _ {M : Type 0} (s : Scheduler M) (h : IsWellFormed s) where
  plain_room : (n : Option ℕ) → length s.state.queue == s.capacity ≡ false → HasRoom s none n
  plain_room n f = record {
    room = ground (arith, h.sound.room);
    partition = λ e. cc;
    fresh = λ j e. cc;
    numbered = λ e. cc;
  }

  barrier_room :
      (n : ℕ)
      → length s.state.queue == s.capacity ≡ false
      → any (has_identity recovery_barrier) s.state.queue ≡ false
      → HasRoom s (some recovery_barrier) (some n)
  barrier_room n f a = record {
    room = ground (arith, h.sound.room);
    partition = λ e. cc;
    fresh = λ j e.
        subst (λ k. count_where (has_identity k) s.state.queue ≡ 0)
          (eq_of_same_identity recovery_barrier j e)
          (count_where_of_any (has_identity recovery_barrier) s.state.queue a);
    numbered = λ e. refl;
  }

  resource_room :
      (t : Option String) (r : String) (n : Option ℕ)
      → (is_some t ≡ true → is_some n ≡ true)
      → partition_full s ≡ false
      → find (has_identity (resource t r)) s.state.queue ≡ none
      → HasRoom s (some (resource t r)) n
  unfolding partition_full
  resource_room t r n g f a = record {
    room = ground (arith, h.sound.room);
    partition = λ e. ground arith;
    fresh = λ j e.
        subst (λ k. count_where (has_identity k) s.state.queue ≡ 0)
          (eq_of_same_identity (resource t r) j e)
          (count_where_of_find (has_identity (resource t r)) s.state.queue a);
    numbered = λ e. ground (arith, g);
  }

-- The scheduler stays within its bounds, and the call does not panic.
pub record IsSafe {M A : Type 0} (t : Scheduler M) (r : Reply EnqueueError A) : Type 0 where
  pub well_formed : IsWellFormed t
  pub no_panic : r ≢ panic

abbrev pub SafeOutcome : {M W : Type 0} → Outcome W M → Type 0
SafeOutcome (t, w, r) = IsSafe t r

abbrev pub SafeAnswer : {M : Type 0} → Scheduler M × Reply EnqueueError (Unit {0}) → Type 0
SafeAnswer (t, r) = IsSafe t r

subscribed :
    (o : Option P2Identity) (t r : String)
    → identified (resource (some t) r) o ≡ true
    → of_subscription o ≡ true
unfolding same_identity
subscribed none t r h = cc
subscribed (some (resource none q)) t r h = cc
subscribed (some (resource (some u) q)) t r h = refl
subscribed (some recovery_barrier) t r h = cc

module _ {M : Type 0} (prepare_message : SessionProtocol → M → M) (s : Scheduler M)
    (h : IsWellFormed s) where
  queued-IsWellFormed :
      (p : Priority) (m : M) (i : Option P2Identity) (n : Option ℕ)
      → HasRoom s i n
      → IsWellFormed (queued prepare_message s p m i n)
  unfolding is_resource has_identity
  queued-IsWellFormed p m i n r = record {
    positive = h.positive;
    reserve = h.reserve;
    sound =
        append-IsSound s.capacity s.reliable_reserve s.state.queue h.sound _ r.room r.partition
          r.fresh r.numbered;
  }

  replaced-IsWellFormed : (i : P2Identity) (m : M) → IsWellFormed (replaced prepare_message s i m)
  replaced-IsWellFormed i m = record {
    positive = h.positive;
    reserve = h.reserve;
    sound = replace-IsSound s.capacity s.reliable_reserve s.state.queue h.sound (has_identity i) _;
  }

  refused-IsSafe : {A : Type 0} (e : EnqueueError) → IsSafe {A = A} s (err e)
  refused-IsSafe e = record { well_formed = h; no_panic = λ c. cc }

  push_built-IsSafe :
      {W : Type 0} (p : Priority) (i : Option P2Identity) (b : Built W M)
      → b.0 ≢ panic
      → ((n : ℕ) → HasRoom s i (some n))
      → SafeOutcome (push_built prepare_message s p i b)
  push_built-IsSafe p i (ok (n, m), w) g r = record {
    well_formed = queued-IsWellFormed p m i (some n) (r n);
    no_panic = λ c. cc;
  }
  push_built-IsSafe p i (err e, w) g r = refused-IsSafe e
  push_built-IsSafe p i (panic, w) g r = absurd (g refl)

  replace_built-IsSafe :
      {W : Type 0} (i : P2Identity) (b : Built W M)
      → b.0 ≢ panic
      → SafeOutcome (replace_built prepare_message s i b)
  replace_built-IsSafe i (ok (n, m), w) g = record {
    well_formed = replaced-IsWellFormed i m;
    no_panic = λ c. cc;
  }
  replace_built-IsSafe i (err e, w) g = refused-IsSafe e
  replace_built-IsSafe i (panic, w) g = absurd (g refl)

  not_full : refuses s ≡ false → length s.state.queue == s.capacity ≡ false
  unfolding refuses
  not_full e = ground arith

  pub enqueue-IsSafe : (p : Priority) (m : M) → SafeAnswer (enqueue prepare_message p m s)
  unfolding enqueue
  enqueue-IsSafe p m =
      if_cases SafeAnswer (refuses s) (λ _. refused-IsSafe _)
        λ e. record {
          well_formed = queued-IsWellFormed p m none none (plain_room s h none (not_full e));
          no_panic = λ c. cc;
        }

  pub enqueue_p2-IsSafe : (r : String) (m : M) → SafeAnswer (enqueue_p2 prepare_message r m s)
  unfolding enqueue_p2
  enqueue_p2-IsSafe r m =
      if_cases SafeAnswer s.state.closed (λ _. refused-IsSafe _)
        λ _.
          if_some_cases SafeAnswer (find (has_identity (resource none r)) s.state.queue)
            (λ e _. record { well_formed = replaced-IsWellFormed _ m; no_panic = λ c. cc })
            λ absent.
              if_cases SafeAnswer (partition_full s) (λ _. refused-IsSafe _)
                λ e. record {
                  well_formed =
                      queued-IsWellFormed p2 m (some (resource none r)) none
                        (resource_room s h none r none (λ c. cc) e absent);
                  no_panic = λ c. cc;
                }

  module _ {W : Type 0} (build : W → Built W M) (builds : (w : W) → (build w).0 ≢ panic)
      (w : W) where
    pub enqueue_sequenced-IsSafe : SafeOutcome (enqueue_sequenced prepare_message build w s)
    unfolding enqueue_sequenced
    enqueue_sequenced-IsSafe =
        if_cases SafeOutcome (refuses s) (λ _. refused-IsSafe _)
          λ e.
            push_built-IsSafe p1 none (build w) (builds w)
              (λ n. plain_room s h (some n) (not_full e))

    pub enqueue_p0_sequenced-IsSafe : SafeOutcome (enqueue_p0_sequenced prepare_message build w s)
    unfolding enqueue_p0_sequenced
    enqueue_p0_sequenced-IsSafe =
        if_cases SafeOutcome (refuses s) (λ _. refused-IsSafe _)
          λ e.
            push_built-IsSafe p0 none (build w) (builds w)
              (λ n. plain_room s h (some n) (not_full e))

    pub enqueue_p2_barrier-IsSafe : SafeOutcome (enqueue_p2_barrier prepare_message build w s)
    unfolding enqueue_p2_barrier
    enqueue_p2_barrier-IsSafe =
        if_cases SafeOutcome s.state.closed (λ _. refused-IsSafe _)
          λ _.
            if_cases SafeOutcome (any (has_identity recovery_barrier) s.state.queue)
              (λ _. record { well_formed = h; no_panic = λ c. cc })
              λ absent.
                if_cases SafeOutcome (length s.state.queue == s.capacity) (λ _. refused-IsSafe _)
                  λ e.
                    push_built-IsSafe p2 (some recovery_barrier) (build w) (builds w)
                      (λ n. barrier_room s h n e absent)

  coalesce-IsSafe :
      {W : Type 0} (build : Option ℕ → W → Built W M)
      → ((o : Option ℕ) (w : W) → (build o w).0 ≢ panic)
      → (w : W) (i : P2Identity) (o : Option ℕ) → is_some o ≡ true
      → SafeOutcome (coalesce prepare_message build w s i o)
  coalesce-IsSafe build builds w i none k = cc
  coalesce-IsSafe build builds w i (some n) k =
      replace_built-IsSafe i (build (some n) w) (builds (some n) w)

  -- A queued entry of a subscription has a sequence to keep.
  found_sequence :
      (t r : String) (e : Entry M)
      → find (has_identity (resource (some t) r)) s.state.queue ≡ some e
      → is_some e.sequence ≡ true
  unfolding has_identity
  found_sequence t r e f =
      let (keeps, same) = All-find KeepsSequence _ s.state.queue e h.sound.retained f in
      keeps (subscribed e.p2_identity t r same)

  -- On a well-formed scheduler, with a closure that does not panic, `enqueue_p2_sequenced` does not
  -- panic either and leaves the scheduler well-formed.
  pub enqueue_p2_sequenced-IsSafe :
      {W : Type 0} (build : Option ℕ → W → Built W M)
      → ((o : Option ℕ) (w : W) → (build o w).0 ≢ panic)
      → (w : W) (t r : String) → SafeOutcome (enqueue_p2_sequenced prepare_message t r build w s)
  unfolding enqueue_p2_sequenced
  enqueue_p2_sequenced-IsSafe build builds w t r =
      if_cases SafeOutcome s.state.closed (λ _. refused-IsSafe _)
        λ _.
          if_some_cases SafeOutcome (find (has_identity (resource (some t) r)) s.state.queue)
            (λ e f. coalesce-IsSafe build builds w _ e.sequence (found_sequence t r e f))
            λ absent.
              if_cases SafeOutcome (partition_full s) (λ _. refused-IsSafe _)
                λ e.
                  push_built-IsSafe p2 (some (resource (some t) r)) (build none w) (builds none w)
                    (λ n. resource_room s h (some t) r (some n) (λ c. refl) e absent)
