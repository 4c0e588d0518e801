-- ===== src/Outbound/Selection.antt =====
-- Which entry `recv` of crates/k10s-server/src/outbound.rs takes from the queue.
use k10s.Base.{
  ℕ, suc, ◌+◌, ◌≤◌, ◌≡◌, refl, ap, Bool, true, false, Option, none, some, List, [], ◌∷◌, ◌++◌,
  arith, All, All-weaken, leb, if◌then◌else◌,
}
use k10s.Outbound.Queue.{Entry, position, remove_at, min_sequence}

-- `x` stands in `xs` behind `front`, and `rest` is `xs` without it.
pub record IsSplit {ℓ} {A : Type ℓ} (xs : List A) (x : A) (front rest : List A) : Type ℓ where
  pub back : List A
  pub whole : xs ≡ front ++ x ∷ back
  pub left : rest ≡ front ++ back

module _ {A : Type 0} where
  IsSplit-cons :
      {xs front rest : List A} {x : A} (y : A)
      → IsSplit xs x front rest
      → IsSplit (y ∷ xs) x (y ∷ front) (y ∷ rest)
  IsSplit-cons y s = record { back = s.back; whole = ap (◌∷◌ y) s.whole; left = ap (◌∷◌ y) s.left }

  -- The first element that passes the test.
  pub record IsFirst (p : A → Bool) (xs : List A) (i : ℕ) : Type 0 where
    pub value : A
    pub front : List A
    pub rest : List A
    pub removed : remove_at xs i ≡ some (value, rest)
    pub split : IsSplit xs value front rest
    pub passes : p value ≡ true
    pub before : All (λ y. p y ≡ false) front

  IsFirst-cons :
      {p : A → Bool} {xs : List A} {i : ℕ} (x : A)
      → p x ≡ false
      → IsFirst p xs i
      → IsFirst p (x ∷ xs) (suc i)
  unfolding remove_at
  IsFirst-cons x h f = record {
    value = f.value;
    front = x ∷ f.front;
    rest = x ∷ f.rest;
    removed = rw f.removed;
    split = IsSplit-cons x f.split;
    passes = f.passes;
    before = (h, f.before);
  }

  abbrev pub Position : (A → Bool) → List A → Option ℕ → Type 0
  Position p xs none = All (λ y. p y ≡ false) xs
  Position p xs (some i) = IsFirst p xs i

  Position-cons :
      (p : A → Bool) (x : A) (xs : List A) (b : Bool) (o : Option ℕ)
      → p x ≡ b
      → Position p xs o
      → Position p
          (x ∷ xs)
          (elim b [ true ↦ some 0 | false ↦ elim o [ none ↦ none | some i ↦ some (suc i) ] ])
  unfolding remove_at
  Position-cons p x xs false none h f = (h, f)
  Position-cons p x xs false (some i) h f = IsFirst-cons x h f
  Position-cons p x xs true o h f = record {
    value = x;
    front = [];
    rest = xs;
    removed = refl;
    split = record { back = xs; whole = refl; left = refl };
    passes = h;
    before = tt;
  }

  -- `position` finds the first element that passes the test, and fails only where none does.
  pub position-Position : (p : A → Bool) (xs : List A) → Position p xs (position p xs)
  unfolding position
  position-Position p [] = tt
  position-Position p (x ∷ xs) =
      Position-cons p x xs (p x) (position p xs) refl (position-Position p xs)

abbrev pub sequence_of : Option ℕ → List ℕ → List ℕ
sequence_of none ns = ns
sequence_of (some n) ns = n ∷ ns

All-sequence_of :
    (P : ℕ → Type 0) (o : Option ℕ) (ns : List ℕ)
    → All P (sequence_of o [])
    → All P ns
    → All P (sequence_of o ns)
All-sequence_of P none ns h hs = hs
All-sequence_of P (some n) ns h hs = (h.0, hs)

weaken_sequence :
    (o : Option ℕ) (n : ℕ)
    → All (λ m. suc n ≤ m) (sequence_of o [])
    → All (λ m. n ≤ m) (sequence_of o [])
weaken_sequence none n h = tt
weaken_sequence (some m) n h = (omega arith, tt)

module _ {M : Type 0} where
  -- The sequences of the queue, in queue order.
  unfoldable pub sequences : List (Entry M) → List ℕ
  sequences [] = []
  sequences (e ∷ q) = sequence_of e.sequence (sequences q)

  -- The least sequence of the queue, first among equals.
  pub record IsLeast (q : List (Entry M)) (n i : ℕ) : Type 0 where
    pub value : Entry M
    pub front : List (Entry M)
    pub rest : List (Entry M)
    pub removed : remove_at q i ≡ some (value, rest)
    pub split : IsSplit q value front rest
    pub numbered : value.sequence ≡ some n
    pub least : All (λ m. n ≤ m) (sequences q)
    pub before : All (λ m. suc n ≤ m) (sequences front)

  abbrev pub Least : List (Entry M) → ℕ → Option (ℕ × ℕ) → Type 0
  Least q k none = sequences q ≡ []
  Least q k (some (n, i)) = (j : ℕ) × (i ≡ k + j) × IsLeast q n j

  IsLeast-sole :
      (e : Entry M) (q : List (Entry M)) (n : ℕ)
      → e.sequence ≡ some n
      → All (λ m. n ≤ m) (sequences q)
      → IsLeast (e ∷ q) n 0
  unfolding sequences remove_at
  IsLeast-sole e q n h l = record {
    value = e;
    front = [];
    rest = q;
    removed = refl;
    split = record { back = q; whole = refl; left = refl };
    numbered = h;
    least = rw h (omega arith, l);
    before = tt;
  }

  IsLeast-later :
      (e : Entry M) (q : List (Entry M)) (n j : ℕ)
      → All (λ m. suc n ≤ m) (sequence_of e.sequence [])
      → IsLeast q n j
      → IsLeast (e ∷ q) n (suc j)
  unfolding sequences remove_at
  IsLeast-later e q n j h l = record {
    value = l.value;
    front = e ∷ l.front;
    rest = e ∷ l.rest;
    removed = rw l.removed;
    split = IsSplit-cons e l.split;
    numbered = l.numbered;
    least = All-sequence_of _ e.sequence (sequences q) (weaken_sequence e.sequence n h) l.least;
    before = All-sequence_of _ e.sequence (sequences l.front) h l.before;
  }

  Least-choice :
      (e : Entry M) (q : List (Entry M)) (k n m i : ℕ) (b : Bool)
      → leb n m ≡ b
      → e.sequence ≡ some n
      → Least q (suc k) (some (m, i))
      → Least (e ∷ q) k (if b then some (n, k) else some (m, i))
  Least-choice e q k n m i true c h l = (
    0,
    omega arith,
    IsLeast-sole e q n h (All-weaken (λ x p. ground arith) (sequences q) l.2.least),
  )
  Least-choice e q k n m i false c h l =
      (suc l.0, omega (arith, l.1), IsLeast-later e q m l.0 (rw h (ground arith, tt)) l.2)

  Least-step :
      (e : Entry M) (q : List (Entry M)) (k : ℕ) (s : Option ℕ) (o : Option (ℕ × ℕ))
      → e.sequence ≡ s
      → Least q (suc k) o
      → Least (e ∷ q) k (elim s [
        | none ↦ o
        | some n ↦ elim o [
          | none ↦ some (n, k)
          | some (m, j) ↦ if leb n m then some (n, k) else some (m, j)
        ]
      ])
  unfolding sequences
  Least-step e q k none none h l = rw (h, l)
  Least-step e q k none (some (n, i)) h l =
      (suc l.0, omega (arith, l.1), IsLeast-later e q n l.0 (rw h tt) l.2)
  Least-step e q k (some n) none h l = (0, omega arith, IsLeast-sole e q n h (rw l tt))
  Least-step e q k (some n) (some (m, i)) h l = Least-choice e q k n m i (leb n m) refl h l

  pub min_sequence-Least : (k : ℕ) (q : List (Entry M)) → Least q k (min_sequence k q)
  unfolding min_sequence sequences
  min_sequence-Least k [] = refl
  min_sequence-Least k (e ∷ q) =
      Least-step e q k e.sequence (min_sequence (suc k) q) refl (min_sequence-Least (suc k) q)
