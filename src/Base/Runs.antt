-- ===== src/Base/Runs.antt =====
-- Runs of consecutive numbers.
use Prim.Native.Nat.{ℕ, suc, ◌+◌, ◌≤◌, ◌<◌}
use mathlib.Core.Path.{◌≡◌, refl}
use mathlib.Core.List.{List, [], ◌∷◌, ◌++◌}
use native.Mathlib.Omega.{arith}
use k10s.Base.Lists.{All}

-- The numbers `lo + 1, …, hi`, in this order.
abbrev pub Upto : ℕ → ℕ → List ℕ → Type 0
Upto lo hi [] = lo ≡ hi
Upto lo hi (n ∷ ns) = (n ≡ lo + 1) × Upto (lo + 1) hi ns

pub Upto-append :
    (lo mid hi : ℕ) (ms ns : List ℕ) → Upto lo mid ms → Upto mid hi ns → Upto lo hi (ms ++ ns)
Upto-append lo mid hi [] ns h k = rw h k
Upto-append lo mid hi (m ∷ ms) ns h k = (h.0, Upto-append (lo + 1) mid hi ms ns h.1 k)

pub Upto-lt : (lo hi n : ℕ) (ms ns : List ℕ) → Upto lo hi (ms ++ n ∷ ns) → lo < n
Upto-lt lo hi n [] ns h = omega arith
Upto-lt lo hi n (m ∷ ms) ns h = omega (arith, Upto-lt (lo + 1) hi n ms ns h.1)

-- The least number of a run is its first.
pub Upto-least :
    (lo hi n : ℕ) (ms ns : List ℕ)
    → Upto lo hi (ms ++ n ∷ ns)
    → All (λ m. suc n ≤ m) ms
    → (ms ≡ []) × (n ≡ lo + 1) × Upto n hi ns
Upto-least lo hi n [] ns h k = (refl, h.0, rw h.0 h.1)
Upto-least lo hi n (m ∷ ms) ns h k =
    absurd (omega (arith, Upto-lt (lo + 1) hi n ms ns h.1, h.0, k.0))

pub Upto-le : (lo hi : ℕ) (ns : List ℕ) → Upto lo hi ns → lo ≤ hi
Upto-le lo hi [] h = omega arith
Upto-le lo hi (n ∷ ns) h = omega (arith, Upto-le (lo + 1) hi ns h.1)
