-- ===== src/Outbound/Bounds.antt =====
-- The bounds of the queue in crates/k10s-server/src/outbound.rs: its capacity, the reserve for the
-- entries that are not coalescible, and one entry for each coalescing identity.
use text.Mathlib.TextEquality.{eq_iff}
use k10s.Base.{
  ℕ, ◌-◌, ◌≤◌, ◌<◌, ◌≡◌, refl, Bool, true, false, Option, none, some, List, [], ◌∷◌, ◌++◌, arith,
  All, All-append, length, length-append, count_where, count_where-append, is_some, Bool-cases, inl,
  inr, ap, string_eq,
}
use k10s.Outbound.Queue.{
  P2Identity, resource, recovery_barrier, Entry, same_identity, has_identity, is_resource,
  update_first,
}
use k10s.Outbound.Selection.{IsSplit}

-- Entries of a subscription carry a sequence: what the `expect` of `enqueue_p2_sequenced` needs.
abbrev pub of_subscription : Option P2Identity → Bool
of_subscription (some (resource (some t) r)) = true
of_subscription _ = false

abbrev pub KeepsSequence : {M : Type 0} → Entry M → Type 0
KeepsSequence e = of_subscription e.p2_identity ≡ true → is_some e.sequence ≡ true

-- A queue within its bounds.
pub record IsSound {M : Type 0} (capacity reserve : ℕ) (q : List (Entry M)) : Type 0 where
  pub room : length q ≤ capacity
  pub partition : count_where is_resource q ≤ capacity - reserve
  pub unique : (i : P2Identity) → count_where (has_identity i) q ≤ 1
  pub retained : All KeepsSequence q

pub eq_of_same_identity : (i j : P2Identity) → same_identity i j ≡ true → i ≡ j
unfolding same_identity
eq_of_same_identity (resource none r) (resource none q) h = ground (arith, eq_iff r q)
eq_of_same_identity (resource none r) (resource (some t) q) h = ground arith
eq_of_same_identity (resource (some s) r) (resource none q) h = ground arith
eq_of_same_identity (resource (some s) r) (resource (some t) q) h =
    ground (arith, eq_iff r q, eq_iff s t)
eq_of_same_identity (resource s r) recovery_barrier h = cc
eq_of_same_identity recovery_barrier (resource s r) h = cc
eq_of_same_identity recovery_barrier recovery_barrier h = refl

module _ {M : Type 0} where
  count_where-update_first :
      (p g : Entry M → Bool) (f : Entry M → Entry M)
      → ((e : Entry M) → g (f e) ≡ g e)
      → (q : List (Entry M)) → count_where g (update_first p f q) ≡ count_where g q
  unfolding update_first
  count_where-update_first p g f h [] = refl
  count_where-update_first p g f h (e ∷ q) = ground (arith, h e, count_where-update_first p g f h q)

  length-update_first :
      (p : Entry M → Bool) (f : Entry M → Entry M) (q : List (Entry M))
      → length (update_first p f q) ≡ length q
  unfolding update_first
  length-update_first p f [] = refl
  length-update_first p f (e ∷ q) = ground (arith, length-update_first p f q)

  All-update_first :
      (P : Entry M → Type 0) (p : Entry M → Bool) (f : Entry M → Entry M)
      → ((e : Entry M) → P e → P (f e))
      → (q : List (Entry M)) → All P q
      → All P (update_first p f q)
  unfolding update_first
  All-update_first P p f k [] h = tt
  All-update_first P p f k (e ∷ q) h = elim (Bool-cases (p e)) [
    | inl c ↦ rw c (k e h.0, h.1)
    | inr c ↦ rw c (h.0, All-update_first P p f k q h.1)
  ]

  All-remove :
      (P : Entry M → Type 0) (e : Entry M) (front back : List (Entry M))
      → All P (front ++ e ∷ back)
      → All P (front ++ back)
  All-remove P e [] back h = h.1
  All-remove P e (x ∷ front) back h = (h.0, All-remove P e front back h.1)

  count_where-remove :
      (p : Entry M → Bool) (e : Entry M) (front back : List (Entry M))
      → count_where p (front ++ back) ≤ count_where p (front ++ e ∷ back)
  count_where-remove p e [] back = ground arith
  count_where-remove p e (x ∷ front) back = ground (arith, count_where-remove p e front back)

  module _ (capacity reserve : ℕ) (q : List (Entry M)) (sound : IsSound capacity reserve q) where
    pub replace-IsSound :
        (p : Entry M → Bool) (f : Entry M → M)
        → IsSound capacity reserve (update_first p (λ e. record e { message = f e }) q)
    unfolding is_resource has_identity
    replace-IsSound p f = record {
      room = rw (length-update_first p (λ e. record e { message = f e }) q) sound.room;
      partition =
          rw
            (count_where-update_first p is_resource (λ e. record e { message = f e }) (λ e. refl) q)
            sound.partition;
      unique = λ i.
          rw
            (count_where-update_first p (has_identity i) (λ e. record e { message = f e })
              (λ e. refl) q)
            (sound.unique i);
      retained = All-update_first KeepsSequence p _ (λ e h. h) q sound.retained;
    }

    pub append-IsSound :
        (e : Entry M)
        → length q < capacity
        → (is_resource e ≡ true → count_where is_resource q < capacity - reserve)
        → ((i : P2Identity) → has_identity i e ≡ true → count_where (has_identity i) q ≡ 0)
        → KeepsSequence e
        → IsSound capacity reserve (q ++ e ∷ [])
    append-IsSound e r p u k = record {
      room = rw (length-append q (e ∷ [])) (omega arith);
      partition =
          rw (count_where-append is_resource q (e ∷ [])) (ground (arith, sound.partition, p));
      unique = λ i.
          rw (count_where-append (has_identity i) q (e ∷ [])) (ground (arith, sound.unique i, u i));
      retained = All-append KeepsSequence q (e ∷ []) sound.retained (k, tt);
    }

    pub remove-IsSound :
        (e : Entry M) (front rest : List (Entry M))
        → IsSplit q e front rest
        → IsSound capacity reserve rest
    remove-IsSound e front rest s = rw s.left (record {
      room = omega (
        arith,
        ap length s.whole,
        length-append front (e ∷ s.back),
        length-append front s.back,
        sound.room,
      );
      partition = least is_resource sound.partition;
      unique = λ i. least (has_identity i) (sound.unique i);
      retained = All-remove KeepsSequence e front s.back (rw s.whole at sound.retained);
    })
      where
        least :
            (p : Entry M → Bool) {n : ℕ} → count_where p q ≤ n → count_where p (front ++ s.back) ≤ n
        least p h = omega (arith, ap (count_where p) s.whole, count_where-remove p e front s.back)
