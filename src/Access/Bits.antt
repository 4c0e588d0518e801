-- ===== src/Access/Bits.antt =====
-- When a disjunction or an exclusive or of numbers is zero, for the comparison of
-- crates/k10s-server/src/auth.rs.
use Prim.Native.Nat.{bit_or, bit_xor, bit_or-bitwise, bit_xor-bitwise, digits, differ}
use k10s.Base.{ℕ, zero, suc, ◌/◌, ◌%◌, ◌≤◌, ◌≡◌, ◌↔◌, refl, sym, max, arith}

or_digits-zero : (n a b : ℕ) → a ≤ n → digits (λ b. b) max n a b ≡ 0 → (a ≡ 0) × (b ≡ 0)
or_digits-zero zero a b l h = (omega arith, h)
or_digits-zero (suc n) zero b l h = (refl, h)
or_digits-zero (suc n) (suc a) b l h =
    let both = or_digits-zero n (suc a / 2) (b / 2) (omega arith) (omega arith) in
    (omega (arith, both.0, both.1), omega (arith, both.0, both.1))

differ_zero : (a b : ℕ) → (differ a b ≡ 0) ↔ (a ≡ b)
differ_zero zero b = ((λ h. sym h), (λ h. sym h))
differ_zero (suc a) zero = ((λ h. h), (λ h. h))
differ_zero (suc a) (suc b) =
    ((λ h. omega (arith, (differ_zero a b).0 h)), (λ h. (differ_zero a b).1 (omega (arith, h))))

xor_digits-zero : (n a b : ℕ) → a ≤ n → (digits (λ b. b) differ n a b ≡ 0) → a ≡ b
xor_digits-zero zero a b l h = omega arith
xor_digits-zero (suc n) zero b l h = omega arith
xor_digits-zero (suc n) (suc a) b l h =
    let half = xor_digits-zero n (suc a / 2) (b / 2) (omega arith) (omega arith) in
    let low = (differ_zero (suc a % 2) (b % 2)).0 (omega arith) in omega (arith, half, low)

xor_digits_self : (n a : ℕ) → a ≤ n → digits (λ b. b) differ n a a ≡ 0
xor_digits_self zero a l = omega arith
xor_digits_self (suc n) zero l = refl
xor_digits_self (suc n) (suc a) l =
    let half = xor_digits_self n (suc a / 2) (omega arith) in
    let low = (differ_zero (suc a % 2) (suc a % 2)).1 refl in omega (arith, half, low)

pub bit_or_zero : (a b : ℕ) → (bit_or a b ≡ 0) ↔ ((a ≡ 0) × (b ≡ 0))
bit_or_zero a b = (
  (λ h. or_digits-zero a a b (omega arith) (omega (arith, bit_or-bitwise a b, h))),
  (λ h. rw (h.0, h.1) (bit_or-bitwise 0 0)),
)

pub bit_xor_zero : (a b : ℕ) → (bit_xor a b ≡ 0) ↔ (a ≡ b)
bit_xor_zero a b = (
  (λ h. xor_digits-zero a a b (omega arith) (omega (arith, bit_xor-bitwise a b, h))),
  (λ h. rw (h, bit_xor-bitwise b b) (xor_digits_self b b (omega arith))),
)
