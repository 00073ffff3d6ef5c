-- ===== src/HashMap/Capacity/Power.antt =====
-- The loop of `__next_power_base__` ends, does not wrap, and finds the least power.
use stdc.HashMap.Capacity.{power_loop, next_power_base}
use stdc.Prelude.Powers.{two-pow-suc, two-pow-le}
use stdc.Prelude.{
  ℕ, zero, suc, ◌*◌, ◌/◌, ◌^◌, ◌≤◌, ◌<◌, ◌≡◌, refl, inl, inr, ap, sym, false, some, arith, ltb, leb,
  Bool-cases,
}
use native.Mathlib.Decide.{dec_lt}
use native.Mathlib.Nat.{pow-suc, pow-zero, mul-le-mul_left, mul-le-mul_right, le-div_iff_mul-le}

-- The first power of the base that is at least `n`; or 0, where that power is no `uint64`.
pub data IsLeastPower (n base r : ℕ) : Type 0 where
  least :
      (j : ℕ)
      → r ≡ base ^ j
      → r < 2 ^ 64
      → n ≤ r
      → ((i : ℕ) → i < j → base ^ i < n)
      → IsLeastPower n base r
  overflow : (j : ℕ) → r ≡ 0 → base ^ j < n → 2 ^ 64 ≤ base ^ suc j → IsLeastPower n base r

-- `MAX / base < p` says exactly that the product passes the largest `uint64`.
overflow-test : (base p : ℕ) → 2 ≤ base → 18446744073709551615 / base < p → 2 ^ 64 ≤ p * base
overflow-test base p b h =
    ground (arith, le-div_iff_mul-le {k = base} {x = p} {y = 18446744073709551615} (omega arith))

no_overflow-test : (base p : ℕ) → 2 ≤ base → p ≤ 18446744073709551615 / base → p * base < 2 ^ 64
no_overflow-test base p b h =
    ground (arith, le-div_iff_mul-le {k = base} {x = p} {y = 18446744073709551615} (omega arith))

double : (fuel base p : ℕ) → 2 ≤ base → 2 ^ 64 ≤ p * 2 ^ suc fuel → 2 ^ 64 ≤ p * base * 2 ^ fuel
double fuel base p b h =
    let regroup : p * 2 ^ suc fuel ≡ p * 2 * 2 ^ fuel = rw two-pow-suc (omega arith) in
    let grown : p * 2 * 2 ^ fuel ≤ p * base * 2 ^ fuel =
      mul-le-mul_right (2 ^ fuel) (mul-le-mul_left p b) in
    omega arith

next-pow : (base p i : ℕ) → p ≡ base ^ i → p * base ≡ base ^ suc i
next-pow base p i e = rw pow-suc (ap (λ t. t * base) e)

below-suc :
    (n base p i : ℕ)
    → p ≡ base ^ i
    → p < n
    → ((k : ℕ) → k < i → base ^ k < n)
    → (k : ℕ) → k < suc i
    → base ^ k < n
below-suc n base p i e lt below k h = elim (dec_lt k i) [
  | yes lower ↦ below k lower
  | no last ↦ let same : k ≡ i = omega arith in rw (same, ← e) lt
]

power_loop-IsLeastPower :
    (fuel n base p i : ℕ)
    → 2 ≤ base
    → n < 2 ^ 64
    → p < 2 ^ 64
    → 2 ^ 64 ≤ p * 2 ^ fuel
    → p ≡ base ^ i
    → ((k : ℕ) → k < i → base ^ k < n)
    → (r : ℕ) × (power_loop fuel n base p ≡ some r) × IsLeastPower n base r
unfolding power_loop
power_loop-IsLeastPower zero n base p i b hn hp h e below = absurd (omega arith)
power_loop-IsLeastPower (suc fuel) n base p i b hn hp h e below = elim (Bool-cases (ltb p n)) [
  | inr done ↦ (p, rw done, least i e hp (ground arith) below)
  | inl more ↦ elim (Bool-cases (ltb (18446744073709551615 / base) p)) [
    | inl over ↦ (
      0,
      rw (more, over),
      overflow i refl (ground arith)
          (omega (arith, next-pow base p i e, overflow-test base p b (ground arith))),
    )
    | inr fits ↦
        rw (more, fits)
          (power_loop-IsLeastPower fuel n base (p * base) (suc i) b hn
            (no_overflow-test base p b (ground arith)) (double fuel base p b h)
            (next-pow base p i e) (below-suc n base p i e (ground arith) below))
  ]
]

-- `__next_power_base__` returns, for a base of two or more, the least power of it that reaches
-- `n`; it returns 0 exactly where that power is not below 2 ^ 64. The loop always ends.
pub next_power_base-IsLeastPower :
    (n base : ℕ) → 2 ≤ base → n < 2 ^ 64 → IsLeastPower n base (next_power_base n base)
unfolding next_power_base
next_power_base-IsLeastPower n base b hn = elim (Bool-cases (leb n 1)) [
  | inl small ↦
      rw small (least 0 (sym (pow-zero base)) (omega arith) (ground arith) (λ i lt. elim lt [ ]))
  | inr large ↦
      let (r, run, found) =
        power_loop-IsLeastPower 64 n base 1 0 b hn (omega arith) (omega arith) (sym (pow-zero base))
          (λ k lt. elim lt [ ]) in
      let wide : leb base 1 ≡ false = ground arith in rw (large, wide, run) found
]

-- A power of two is its own least power.
pub next_power_base-two_pow : (k : ℕ) → k < 64 → next_power_base (2 ^ k) 2 ≡ 2 ^ k
next_power_base-two_pow k h = squeeze (next_power_base-IsLeastPower (2 ^ k) 2 (omega arith) small)
  where
    small : 2 ^ k < 2 ^ 64
    small = omega (arith, two-pow-le {i = k} {j = 63} (omega arith))

    squeeze : {r : ℕ} → IsLeastPower (2 ^ k) 2 r → r ≡ 2 ^ k
    squeeze (least j e fits reach below) = elim (dec_lt k j) [
      | yes past ↦ absurd (omega (arith, below k past))
      | no upto ↦ omega (arith, two-pow-le {i = j} {j = k} (omega arith))
    ]
    squeeze (overflow j e lt big) = elim (dec_lt j k) [
      | yes inside ↦ absurd (omega (arith, small, two-pow-le {i = suc j} {j = k} (omega arith)))
      | no past ↦ absurd (omega (arith, two-pow-le {i = k} {j = j} (omega arith)))
    ]

pub IsLeastPower-lt : {n base r : ℕ} → IsLeastPower n base r → r < 2 ^ 64
IsLeastPower-lt (least j e fits reach below) = fits
IsLeastPower-lt (overflow j e lt past) = omega arith
