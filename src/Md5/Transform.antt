-- ===== src/Md5/Transform.antt =====
-- `__md5_transform__` with `__md5_decode__` and the macros of md5.h: one 64-byte block.
use stdc.Prelude.Word.{u32, shr, shl32, not32, bit_and, bit_or, bit_xor}
use stdc.Prelude.{ℕ, zero, suc, ◌+◌, ◌-◌, ◌*◌, List, [], ◌∷◌, get_or}

-- The rounds of `__md5_decode__`, for `n` words from word `i` on.
unfoldable pub md5_decode : ℕ → ℕ → List ℕ → List ℕ
md5_decode zero i input = []
md5_decode (suc n) i input =
    let j = i * 4 in
    bit_or
      (bit_or (bit_or (get_or input j 0) (shl32 (get_or input (j + 1) 0) 8))
        (shl32 (get_or input (j + 2) 0) 16))
      (shl32 (get_or input (j + 3) 0) 24)
    ∷ md5_decode n (i + 1) input

unfoldable pub rotate_left : ℕ → ℕ → ℕ
rotate_left x n = bit_or (shl32 x n) (shr x (32 - n))

unfoldable pub mix_f : ℕ → ℕ → ℕ → ℕ
mix_f x y z = bit_or (bit_and x y) (bit_and (not32 x) z)

unfoldable pub mix_g : ℕ → ℕ → ℕ → ℕ
mix_g x y z = bit_or (bit_and x z) (bit_and y (not32 z))

unfoldable pub mix_h : ℕ → ℕ → ℕ → ℕ
mix_h x y z = bit_xor (bit_xor x y) z

unfoldable pub mix_i : ℕ → ℕ → ℕ → ℕ
mix_i x y z = bit_xor y (bit_or x (not32 z))

-- The variables in the order in which the next macro names them.
pub record Registers : Type 0 where
  pub a : ℕ
  pub b : ℕ
  pub c : ℕ
  pub d : ℕ

-- `FF`, `GG`, `HH` and `II` with their function. The next macro of the source takes the variables in
-- the order d, a, b, c.
unfoldable pub apply_step : (ℕ → ℕ → ℕ → ℕ) → ℕ → ℕ → ℕ → Registers → Registers
apply_step mix x s ac v =
    let a = u32 (u32 (u32 (v.a + mix v.b v.c v.d) + x) + ac) in
    record { a = v.d; b = u32 (rotate_left a s + v.b); c = v.b; d = v.c }

-- The word, the shift and the constant of each macro, one table for each of the four groups.
abbrev pub ff_steps : List (ℕ × (ℕ × ℕ))
ff_steps =
    (0, (7, 0xd76aa478))
    ∷ (1, (12, 0xe8c7b756))
    ∷ (2, (17, 0x242070db))
    ∷ (3, (22, 0xc1bdceee))
    ∷ (4, (7, 0xf57c0faf))
    ∷ (5, (12, 0x4787c62a))
    ∷ (6, (17, 0xa8304613))
    ∷ (7, (22, 0xfd469501))
    ∷ (8, (7, 0x698098d8))
    ∷ (9, (12, 0x8b44f7af))
    ∷ (10, (17, 0xffff5bb1))
    ∷ (11, (22, 0x895cd7be))
    ∷ (12, (7, 0x6b901122))
    ∷ (13, (12, 0xfd987193))
    ∷ (14, (17, 0xa679438e))
    ∷ (15, (22, 0x49b40821))
    ∷ []

abbrev pub gg_steps : List (ℕ × (ℕ × ℕ))
gg_steps =
    (1, (5, 0xf61e2562))
    ∷ (6, (9, 0xc040b340))
    ∷ (11, (14, 0x265e5a51))
    ∷ (0, (20, 0xe9b6c7aa))
    ∷ (5, (5, 0xd62f105d))
    ∷ (10, (9, 0x2441453))
    ∷ (15, (14, 0xd8a1e681))
    ∷ (4, (20, 0xe7d3fbc8))
    ∷ (9, (5, 0x21e1cde6))
    ∷ (14, (9, 0xc33707d6))
    ∷ (3, (14, 0xf4d50d87))
    ∷ (8, (20, 0x455a14ed))
    ∷ (13, (5, 0xa9e3e905))
    ∷ (2, (9, 0xfcefa3f8))
    ∷ (7, (14, 0x676f02d9))
    ∷ (12, (20, 0x8d2a4c8a))
    ∷ []

abbrev pub hh_steps : List (ℕ × (ℕ × ℕ))
hh_steps =
    (5, (4, 0xfffa3942))
    ∷ (8, (11, 0x8771f681))
    ∷ (11, (16, 0x6d9d6122))
    ∷ (14, (23, 0xfde5380c))
    ∷ (1, (4, 0xa4beea44))
    ∷ (4, (11, 0x4bdecfa9))
    ∷ (7, (16, 0xf6bb4b60))
    ∷ (10, (23, 0xbebfbc70))
    ∷ (13, (4, 0x289b7ec6))
    ∷ (0, (11, 0xeaa127fa))
    ∷ (3, (16, 0xd4ef3085))
    ∷ (6, (23, 0x4881d05))
    ∷ (9, (4, 0xd9d4d039))
    ∷ (12, (11, 0xe6db99e5))
    ∷ (15, (16, 0x1fa27cf8))
    ∷ (2, (23, 0xc4ac5665))
    ∷ []

abbrev pub ii_steps : List (ℕ × (ℕ × ℕ))
ii_steps =
    (0, (6, 0xf4292244))
    ∷ (7, (10, 0x432aff97))
    ∷ (14, (15, 0xab9423a7))
    ∷ (5, (21, 0xfc93a039))
    ∷ (12, (6, 0x655b59c3))
    ∷ (3, (10, 0x8f0ccc92))
    ∷ (10, (15, 0xffeff47d))
    ∷ (1, (21, 0x85845dd1))
    ∷ (8, (6, 0x6fa87e4f))
    ∷ (15, (10, 0xfe2ce6e0))
    ∷ (6, (15, 0xa3014314))
    ∷ (13, (21, 0x4e0811a1))
    ∷ (4, (6, 0xf7537e82))
    ∷ (11, (10, 0xbd3af235))
    ∷ (2, (15, 0x2ad7d2bb))
    ∷ (9, (21, 0xeb86d391))
    ∷ []

unfoldable pub run_steps : (ℕ → ℕ → ℕ → ℕ) → List (ℕ × (ℕ × ℕ)) → List ℕ → Registers → Registers
run_steps mix [] x v = v
run_steps mix ((k, (s, ac)) ∷ steps) x v =
    run_steps mix steps x (apply_step mix (get_or x k 0) s ac v)

unfoldable pub md5_transform : List ℕ → List ℕ → List ℕ
md5_transform state block =
    let v : Registers = record {
      a = get_or state 0 0;
      b = get_or state 1 0;
      c = get_or state 2 0;
      d = get_or state 3 0;
    } in
    let x = md5_decode 16 0 block in
    let w =
      run_steps mix_i ii_steps x
        (run_steps mix_h hh_steps x (run_steps mix_g gg_steps x (run_steps mix_f ff_steps x v))) in
    u32 (v.a + w.a) ∷ u32 (v.b + w.b) ∷ u32 (v.c + w.c) ∷ u32 (v.d + w.d) ∷ []
