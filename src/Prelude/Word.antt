-- ===== src/Prelude/Word.antt =====
-- Machine words as native numbers: casts, shifts, and the bitwise operators of C.
use Prim.Native.Nat.{ℕ, ◌-◌, ◌*◌, ◌/◌, ◌%◌, ◌^◌}
pub use Prim.Native.Nat.{bit_and, bit_or, bit_xor}

abbrev pub u8 : ℕ → ℕ
u8 n = n % 2 ^ 8

abbrev pub u32 : ℕ → ℕ
u32 n = n % 2 ^ 32

abbrev pub u64 : ℕ → ℕ
u64 n = n % 2 ^ 64

-- `x >> k`
abbrev pub shr : ℕ → ℕ → ℕ
shr x k = x / 2 ^ k

-- `x << k` on a `uint32_t`
abbrev pub shl32 : ℕ → ℕ → ℕ
shl32 x k = u32 (x * 2 ^ k)

-- `~x` on a `uint32_t`
abbrev pub not32 : ℕ → ℕ
not32 x = 2 ^ 32 - 1 - x
