-- ===== src/Access/Tokens.antt =====
-- `const_time_eq` and `authenticate` of crates/k10s-server/src/auth.rs. A token is the list of its bytes.
use Prim.Native.Nat.{bit_or, bit_xor}
use k10s.Base.{
  ℕ, zero, suc, ◌+◌, ◌-◌, ◌≤◌, ◌<◌, ◌≡◌, ◌≢◌, ◌⊎◌, inl, inr, refl, subst, ap, Bool, true, false,
  not, Option, none, some, List, [], ◌∷◌, arith, length, ltb, ◌==◌, if◌then◌else◌, if_some,
  if_cases, Bool-cases, string_eq,
}
use k10s.Access.Bits.{bit_or_zero, bit_xor_zero}

module _ {ℓ} {A : Type ℓ} where
  -- `slice::get`.
  unfoldable pub get_elem? : List A → ℕ → Option A
  get_elem? [] i = none
  get_elem? (x ∷ xs) zero = some x
  get_elem? (x ∷ xs) (suc i) = get_elem? xs i

abbrev pub max_access_token_bytes : ℕ
max_access_token_bytes = 512

-- `*bytes.get(index).unwrap_or(&0)`.
unfoldable pub byte_or_zero : List ℕ → ℕ → ℕ
byte_or_zero bytes index = if_some (get_elem? bytes index) (λ b. b) 0

-- The first loop, over `count` positions from `index` on.
unfoldable pub window : ℕ → ℕ → List ℕ → List ℕ → ℕ → ℕ
window zero index left right difference = difference
window (suc count) index left right difference =
    window count (suc index) left right
      (bit_or difference (bit_xor (byte_or_zero left index) (byte_or_zero right index)))

-- The second loop; `none` is the panic of an index out of range.
unfoldable pub tail : ℕ → ℕ → List ℕ → List ℕ → ℕ → Option ℕ
tail zero index left right difference = some difference
tail (suc count) index left right difference =
    if_some (get_elem? left index)
      (λ a.
        if_some (get_elem? right index)
          (λ b. tail count (suc index) left right (bit_or difference (bit_xor a b))) none)
      none

unfoldable pub const_time_eq : List ℕ → List ℕ → Option Bool
const_time_eq left right =
    let difference =
      window max_access_token_bytes 0 left right (bit_xor (length left) (length right)) in
    if not (difference == 0)
    then some false
    else if_some
        (tail (length left - max_access_token_bytes) max_access_token_bytes left right difference)
        (λ d. some (d == 0)) none

agree_step :
    (count index : ℕ) (left right : List ℕ)
    → byte_or_zero left index ≡ byte_or_zero right index
    → ((k : ℕ) → k < count → byte_or_zero left (suc index + k) ≡ byte_or_zero right (suc index + k))
    → (k : ℕ) → k < suc count
    → byte_or_zero left (index + k) ≡ byte_or_zero right (index + k)
agree_step count index left right same later zero l =
    let e : index + 0 ≡ index = omega arith in rw e same
agree_step count index left right same later (suc k) l =
    let e : index + suc k ≡ suc index + k = omega arith in rw e (later k (omega arith))

window_zero :
    (count index : ℕ) (left right : List ℕ) (difference : ℕ)
    → window count index left right difference ≡ 0
    → (difference ≡ 0)
      × ((k : ℕ) → k < count → byte_or_zero left (index + k) ≡ byte_or_zero right (index + k))
unfolding window
window_zero zero index left right difference h = (h, λ k l. absurd (omega arith))
window_zero (suc count) index left right difference h =
    let (first, later) = window_zero count (suc index) left right _ h in
    let (before, here) = (bit_or_zero difference _).0 first in
    let same = (bit_xor_zero (byte_or_zero left index) (byte_or_zero right index)).0 here in
    (before, agree_step count index left right same later)

window_self : (count index : ℕ) (left : List ℕ) → window count index left left 0 ≡ 0
unfolding window
window_self zero index left = refl
window_self (suc count) index left =
    let same = (bit_xor_zero (byte_or_zero left index) (byte_or_zero left index)).1 refl in
    let still = (bit_or_zero 0 0).1 (refl, refl) in
    rw (same, still) (window_self count (suc index) left)

get_elem?-some {ℓ} :
    {A : Type ℓ} (xs : List A) (i : ℕ) → i < length xs → (a : A) × (get_elem? xs i ≡ some a)
unfolding get_elem?
get_elem?-some [] i h = absurd (omega arith)
get_elem?-some (x ∷ xs) zero h = (x, refl)
get_elem?-some (x ∷ xs) (suc i) h = get_elem?-some xs i (omega arith)

-- Within both lists the second loop computes what the first would.
tail-window :
    (count index : ℕ) (left right : List ℕ) (difference : ℕ)
    → count ≤ length left - index
    → count ≤ length right - index
    → tail count index left right difference ≡ some (window count index left right difference)
unfolding tail window byte_or_zero
tail-window zero index left right difference h k = refl
tail-window (suc count) index left right difference h k =
    let (a, e) = get_elem?-some left index (omega arith) in
    let (b, f) = get_elem?-some right index (omega arith) in
    rw (e, f) (tail-window count (suc index) left right _ (omega arith) (omega arith))

-- Lists of one length that agree at every position are equal.
eq_of_bytes :
    (left right : List ℕ)
    → length left ≡ length right
    → ((k : ℕ) → k < length left → byte_or_zero left k ≡ byte_or_zero right k)
    → left ≡ right
unfolding byte_or_zero get_elem?
eq_of_bytes [] [] h same = refl
eq_of_bytes [] (b ∷ right) h same = absurd (omega arith)
eq_of_bytes (a ∷ left) [] h same = absurd (omega arith)
eq_of_bytes (a ∷ left) (b ∷ right) h same =
    let head = same 0 (omega arith) in
    let rest = eq_of_bytes left right (omega arith) (λ k l. same (suc k) (omega arith)) in
    rw (head, rest) refl

module _ (left right : List ℕ) where
  abbrev pub Decides : Option Bool → Type 0
  Decides o = ((o ≡ some true) × (left ≡ right)) ⊎ ((o ≡ some false) × (left ≢ right))

  -- All that the two loops fold together.
  abbrev folded : ℕ → ℕ
  folded bound =
      window (length left - bound) bound left right
        (window bound 0 left right (bit_xor (length left) (length right)))

  folded-equal : (bound : ℕ) → folded bound ≡ 0 → left ≡ right
  folded-equal bound h =
      let (first, behind) = window_zero (length left - bound) bound left right _ h in
      let (lengths, before) = window_zero bound 0 left right _ first in
      eq_of_bytes left right ((bit_xor_zero (length left) (length right)).0 lengths) λ k l.
        elim (Bool-cases (ltb k bound)) [
          | inl c ↦
              subst (λ n. byte_or_zero left n ≡ byte_or_zero right n) (omega arith)
                (before k (ground arith))
          | inr c ↦
              let e : bound + (k - bound) ≡ k = ground arith in
              subst (λ n. byte_or_zero left n ≡ byte_or_zero right n) e
                (behind (k - bound) (ground arith))
        ]

equal-folded :
    (bound : ℕ) (left : List ℕ)
    → (window bound 0 left left (bit_xor (length left) (length left)) ≡ 0)
      × (folded left left bound ≡ 0)
equal-folded bound left =
    let lengths = (bit_xor_zero (length left) (length left)).1 refl in
    let first : window bound 0 left left (bit_xor (length left) (length left)) ≡ 0 =
      rw lengths (window_self bound 0 left) in
    (first, rw first (window_self (length left - bound) bound left))

equal_lists :
    (bound : ℕ) (left right : List ℕ)
    → left ≡ right
    → (window bound 0 left right (bit_xor (length left) (length right)) ≡ 0)
      × (folded left right bound ≡ 0)
equal_lists bound left right e =
    subst
      (λ x.
        (window bound 0 left x (bit_xor (length left) (length x)) ≡ 0) × (folded left x bound ≡ 0))
      e (equal-folded bound left)

answer :
    (bound : ℕ) (left right : List ℕ) → Decides left right (some (folded left right bound == 0))
answer bound left right = elim (Bool-cases (folded left right bound == 0)) [
  | inl z ↦ inl (ap some z, folded-equal left right bound (ground arith))
  | inr z ↦ inr (ap some z, λ e. let y = (equal_lists bound left right e).1 in ground arith)
]

-- Whatever the lengths of the two tokens, the comparison does not panic, and it answers `true` exactly
-- where they are equal.
pub const_time_eq-Decides : (left right : List ℕ) → Decides left right (const_time_eq left right)
unfolding const_time_eq
const_time_eq-Decides left right =
    let bound = max_access_token_bytes in
    let first = window bound 0 left right (bit_xor (length left) (length right)) in
    if_cases (Decides left right) (not (first == 0))
      (λ c. inr (refl, λ e. let z = (equal_lists bound left right e).0 in ground arith))
      (λ c.
        let clean : first ≡ 0 = ground arith in
        let lengths =
          (bit_xor_zero (length left) (length right)).0
            (window_zero bound 0 left right _ clean).0 in
        let second =
          tail-window (length left - bound) bound left right first (omega arith)
            (omega (arith, lengths)) in
        rw second (answer bound left right))
