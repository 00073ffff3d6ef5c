-- ===== src/Prelude/Bits.antt =====
-- Laws of the bitwise operators at variables: bounds, masks, and disjoint fields.
use Prim.Native.Nat.{
  ℕ, zero, suc, ◌+◌, ◌-◌, ◌*◌, ◌/◌, ◌%◌, ◌^◌, ◌≤◌, ◌<◌, min, max, digits, bitwise, differ, bit_and,
  bit_or, bit_xor, bit_and-bitwise, bit_or-bitwise, bit_xor-bitwise,
}
use mathlib.Core.Path.{◌≡◌, refl, ap, ◌∙◌, sym}
use native.Mathlib.Nat.{one-le-pow}
use native.Mathlib.Omega.{arith}
use stdc.Prelude.Powers.{two-pow-suc}

-- `digits` consumes one unit of fuel for each binary digit; any fuel of at least `a` will do.
digits_enough :
    (z : ℕ → ℕ) (f : ℕ → ℕ → ℕ) (n a m b : ℕ) → a ≤ n → a ≤ m → digits z f n a b ≡ digits z f m a b
digits_enough z f zero zero zero b p q = refl
digits_enough z f zero zero (suc m) b p q = refl
digits_enough z f (suc n) zero zero b p q = refl
digits_enough z f (suc n) zero (suc m) b p q = refl
digits_enough z f zero (suc a) m b p q = absurd (omega arith)
digits_enough z f (suc n) (suc a) zero b p q = absurd (omega arith)
digits_enough z f (suc n) (suc a) (suc m) b p q =
    ap (λ r. r * 2 + f (suc a % 2) (b % 2))
      (digits_enough z f n (suc a / 2) m (b / 2) (omega arith) (omega arith))

-- One binary digit of each operator.
low_digit :
    (z : ℕ → ℕ) (f : ℕ → ℕ → ℕ) (a b : ℕ)
    → bitwise z f (suc a) b ≡ bitwise z f (suc a / 2) (b / 2) * 2 + f (suc a % 2) (b % 2)
low_digit z f a b =
    ap (λ r. r * 2 + f (suc a % 2) (b % 2))
      (digits_enough z f a (suc a / 2) (suc a / 2) (b / 2) (omega arith) (omega arith))

pub bit_and-digit : (a b : ℕ) → bit_and a b ≡ bit_and (a / 2) (b / 2) * 2 + min (a % 2) (b % 2)
bit_and-digit zero b = omega (arith, bit_and-bitwise 0 b, bit_and-bitwise 0 (b / 2))
bit_and-digit (suc a) b =
    bit_and-bitwise (suc a) b
    ∙ low_digit (λ b. zero) min a b
    ∙ ap (λ r. r * 2 + min (suc a % 2) (b % 2)) (sym (bit_and-bitwise (suc a / 2) (b / 2)))

pub bit_or-digit : (a b : ℕ) → bit_or a b ≡ bit_or (a / 2) (b / 2) * 2 + max (a % 2) (b % 2)
bit_or-digit zero b = omega (arith, bit_or-bitwise 0 b, bit_or-bitwise 0 (b / 2))
bit_or-digit (suc a) b =
    bit_or-bitwise (suc a) b
    ∙ low_digit (λ b. b) max a b
    ∙ ap (λ r. r * 2 + max (suc a % 2) (b % 2)) (sym (bit_or-bitwise (suc a / 2) (b / 2)))

pub bit_xor-digit : (a b : ℕ) → bit_xor a b ≡ bit_xor (a / 2) (b / 2) * 2 + differ (a % 2) (b % 2)
bit_xor-digit zero b = ground (arith, bit_xor-bitwise 0 b, bit_xor-bitwise 0 (b / 2))
bit_xor-digit (suc a) b =
    bit_xor-bitwise (suc a) b
    ∙ low_digit (λ b. b) differ a b
    ∙ ap (λ r. r * 2 + differ (suc a % 2) (b % 2)) (sym (bit_xor-bitwise (suc a / 2) (b / 2)))

bit_and-le_fuel : (n a b : ℕ) → a ≤ n → bit_and a b ≤ b
bit_and-le_fuel n zero b h = omega (arith, bit_and-bitwise 0 b)
bit_and-le_fuel zero (suc a) b h = absurd (omega arith)
bit_and-le_fuel (suc n) (suc a) b h =
    omega (arith, bit_and-digit (suc a) b, bit_and-le_fuel n (suc a / 2) (b / 2) (omega arith))

-- A mask bounds the result, whatever it is.
pub bit_and-le : (a b : ℕ) → bit_and a b ≤ b
bit_and-le a b = bit_and-le_fuel a a b (omega arith)

-- A field above bit `k`, one bit further up.
field-double : (q k : ℕ) → q * 2 ^ suc k ≡ 2 * (q * 2 ^ k)
field-double q k = omega (arith, ap (λ (t : ℕ). q * t) (two-pow-suc k))

low_field : (k q r : ℕ) → r < 2 ^ k → bit_and (q * 2 ^ k + r) (2 ^ k - 1) ≡ r
low_field zero q r h = omega (arith, bit_and-le (q * 2 ^ 0 + r) 0)
low_field (suc k) q r h =
    let double = two-pow-suc k in
    let shifted = field-double q k in
    let positive = one-le-pow k 2 (omega arith) in
    let rest = low_field k q (r / 2) (omega arith) in
    ground
      (arith, double, shifted, positive, rest, bit_and-digit (q * 2 ^ suc k + r) (2 ^ suc k - 1))

-- `x & (2^k - 1)` is the remainder.
pub bit_and-mask : (k a : ℕ) → bit_and a (2 ^ k - 1) ≡ a % 2 ^ k
bit_and-mask k a =
    let positive = one-le-pow k 2 (omega arith) in
    ground (arith, positive, low_field k (a / 2 ^ k) (a % 2 ^ k))

bit_or-zero_fuel : (n a : ℕ) → a ≤ n → bit_or a 0 ≡ a
bit_or-zero_fuel n zero h = omega (arith, bit_or-bitwise 0 0)
bit_or-zero_fuel zero (suc a) h = absurd (omega arith)
bit_or-zero_fuel (suc n) (suc a) h =
    omega (arith, bit_or-digit (suc a) 0, bit_or-zero_fuel n (suc a / 2) (omega arith))

-- `(q << k) | r` is a sum where `r` fits in `k` bits.
pub bit_or-fields : (k q r : ℕ) → r < 2 ^ k → bit_or (q * 2 ^ k) r ≡ q * 2 ^ k + r
bit_or-fields zero q r h =
    let none : r ≡ 0 = omega arith in
    rw none (omega (arith, bit_or-zero_fuel (q * 1) (q * 1) (omega arith)))
bit_or-fields (suc k) q r h =
    let double = two-pow-suc k in
    let shifted = field-double q k in
    let rest = bit_or-fields k q (r / 2) (omega arith) in
    ground (arith, double, shifted, rest, bit_or-digit (q * 2 ^ suc k) r)

bit_or-comm_fuel : (n a b : ℕ) → a ≤ n → b ≤ n → bit_or a b ≡ bit_or b a
bit_or-comm_fuel zero a b p q =
    let a0 : a ≡ 0 = omega arith in let b0 : b ≡ 0 = omega arith in rw (a0, b0) refl
bit_or-comm_fuel (suc n) a b p q =
    let rest = bit_or-comm_fuel n (a / 2) (b / 2) (omega arith) (omega arith) in
    omega (arith, rest, bit_or-digit a b, bit_or-digit b a)

pub bit_or_comm : (a b : ℕ) → bit_or a b ≡ bit_or b a
bit_or_comm a b = bit_or-comm_fuel (a + b) a b (omega arith) (omega arith)

-- A low field under one that stands at bit `k`.
pub bit_or-low : (k q r : ℕ) → r < 2 ^ k → bit_or r (q * 2 ^ k) ≡ r + q * 2 ^ k
bit_or-low k q r h = bit_or_comm r (q * 2 ^ k) ∙ bit_or-fields k q r h ∙ omega arith

bit_or-eq-zero_fuel : (n a b : ℕ) → a ≤ n → bit_or a b ≡ 0 → (a ≡ 0) × (b ≡ 0)
bit_or-eq-zero_fuel n zero b h e = (refl, omega (arith, bit_or-bitwise 0 b))
bit_or-eq-zero_fuel zero (suc a) b h e = absurd (omega arith)
bit_or-eq-zero_fuel (suc n) (suc a) b h e =
    let digit = bit_or-digit (suc a) b in
    omega (arith, digit, bit_or-eq-zero_fuel n (suc a / 2) (b / 2) (omega arith) (omega arith))

-- An accumulated `|` is zero only if all its parts are.
pub bit_or-eq-zero : (a b : ℕ) → bit_or a b ≡ 0 → (a ≡ 0) × (b ≡ 0)
bit_or-eq-zero a b = bit_or-eq-zero_fuel a a b (omega arith)

bit_xor-eq-zero_fuel : (n a b : ℕ) → a ≤ n → bit_xor a b ≡ 0 → a ≡ b
bit_xor-eq-zero_fuel n zero b h e = omega (arith, bit_xor-bitwise 0 b)
bit_xor-eq-zero_fuel zero (suc a) b h e = absurd (omega arith)
bit_xor-eq-zero_fuel (suc n) (suc a) b h e =
    let rest = bit_xor-eq-zero_fuel n (suc a / 2) (b / 2) (omega arith) in
    ground (arith, bit_xor-digit (suc a) b, rest)

-- `a ^ b` is zero only where they agree.
pub bit_xor-eq-zero : (a b : ℕ) → bit_xor a b ≡ 0 → a ≡ b
bit_xor-eq-zero a b = bit_xor-eq-zero_fuel a a b (omega arith)

differ_self : (a : ℕ) → differ a a ≡ 0
differ_self zero = refl
differ_self (suc a) = differ_self a

differ-le : (a b : ℕ) → differ a b ≤ max a b
differ-le zero b = omega arith
differ-le (suc a) zero = omega arith
differ-le (suc a) (suc b) = omega (arith, differ-le a b)

bit_xor_self_fuel : (n a : ℕ) → a ≤ n → bit_xor a a ≡ 0
bit_xor_self_fuel n zero h = omega (arith, bit_xor-bitwise 0 0)
bit_xor_self_fuel zero (suc a) h = absurd (omega arith)
bit_xor_self_fuel (suc n) (suc a) h = ground (
  arith,
  bit_xor-digit (suc a) (suc a),
  differ_self (suc a % 2),
  bit_xor_self_fuel n (suc a / 2) (omega arith),
)

pub bit_xor_self : (a : ℕ) → bit_xor a a ≡ 0
bit_xor_self a = bit_xor_self_fuel a a (omega arith)

pub bit_xor-lt : (k a b : ℕ) → a < 2 ^ k → b < 2 ^ k → bit_xor a b < 2 ^ k
bit_xor-lt zero a b p q = let a0 : a ≡ 0 = omega arith in rw a0 (omega (arith, bit_xor-bitwise 0 b))
bit_xor-lt (suc k) a b p q =
    let double = two-pow-suc k in
    let rest = bit_xor-lt k (a / 2) (b / 2) (omega arith) (omega arith) in
    omega (arith, double, rest, bit_xor-digit a b, differ-le (a % 2) (b % 2))

pub bit_or-lt : (k a b : ℕ) → a < 2 ^ k → b < 2 ^ k → bit_or a b < 2 ^ k
bit_or-lt zero a b p q = let a0 : a ≡ 0 = omega arith in rw a0 (omega (arith, bit_or-bitwise 0 b))
bit_or-lt (suc k) a b p q =
    let double = two-pow-suc k in
    omega (arith, double, bit_or-lt k (a / 2) (b / 2) (omega arith) (omega arith), bit_or-digit a b)
