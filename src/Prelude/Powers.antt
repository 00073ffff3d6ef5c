-- ===== src/Prelude/Powers.antt =====
-- Powers of two.
use Prim.Native.Nat.{ℕ, suc, ◌*◌, ◌^◌, ◌≤◌}
use mathlib.Core.Path.{◌≡◌}
use native.Mathlib.Nat.{two-pow-succ, pow-le-pow_right}
use native.Mathlib.Omega.{arith}

pub two-pow-suc : (k : ℕ) → 2 ^ suc k ≡ 2 * 2 ^ k
two-pow-suc k = omega (arith, two-pow-succ k)

pub two-pow-le : {i j : ℕ} → i ≤ j → 2 ^ i ≤ 2 ^ j
two-pow-le h = pow-le-pow_right (omega arith) h
