-- ===== src/Sha256/Transform.antt =====
-- `__sha256_transform__` and `__rotate_right__`: one 64-byte block.
use stdc.Prelude.Word.{u32, shr, shl32, not32, bit_and, bit_or, bit_xor}
use stdc.Prelude.{ℕ, zero, suc, ◌+◌, ◌-◌, ◌*◌, List, [], ◌∷◌, ◌++◌, get_or}

abbrev pub constants : List ℕ
constants =
    0x428a2f98 ∷ 0x71374491 ∷ 0xb5c0fbcf ∷ 0xe9b5dba5 ∷ 0x3956c25b ∷ 0x59f111f1 ∷ 0x923f82a4
    ∷ 0xab1c5ed5 ∷ 0xd807aa98 ∷ 0x12835b01 ∷ 0x243185be ∷ 0x550c7dc3 ∷ 0x72be5d74 ∷ 0x80deb1fe
    ∷ 0x9bdc06a7 ∷ 0xc19bf174 ∷ 0xe49b69c1 ∷ 0xefbe4786 ∷ 0x0fc19dc6 ∷ 0x240ca1cc ∷ 0x2de92c6f
    ∷ 0x4a7484aa ∷ 0x5cb0a9dc ∷ 0x76f988da ∷ 0x983e5152 ∷ 0xa831c66d ∷ 0xb00327c8 ∷ 0xbf597fc7
    ∷ 0xc6e00bf3 ∷ 0xd5a79147 ∷ 0x06ca6351 ∷ 0x14292967 ∷ 0x27b70a85 ∷ 0x2e1b2138 ∷ 0x4d2c6dfc
    ∷ 0x53380d13 ∷ 0x650a7354 ∷ 0x766a0abb ∷ 0x81c2c92e ∷ 0x92722c85 ∷ 0xa2bfe8a1 ∷ 0xa81a664b
    ∷ 0xc24b8b70 ∷ 0xc76c51a3 ∷ 0xd192e819 ∷ 0xd6990624 ∷ 0xf40e3585 ∷ 0x106aa070 ∷ 0x19a4c116
    ∷ 0x1e376c08 ∷ 0x2748774c ∷ 0x34b0bcb5 ∷ 0x391c0cb3 ∷ 0x4ed8aa4a ∷ 0x5b9cca4f ∷ 0x682e6ff3
    ∷ 0x748f82ee ∷ 0x78a5636f ∷ 0x84c87814 ∷ 0x8cc70208 ∷ 0x90befffa ∷ 0xa4506ceb ∷ 0xbef9a3f7
    ∷ 0xc67178f2 ∷ []

unfoldable pub rotate_right : ℕ → ℕ → ℕ
rotate_right value bits = bit_or (shr value bits) (shl32 value (32 - bits))

-- The first loop: 16 big-endian words of the block, from word `i` on.
unfoldable pub load_words : ℕ → ℕ → List ℕ → List ℕ
load_words zero i block = []
load_words (suc n) i block =
    let offset = i * 4 in
    bit_or
      (bit_or (bit_or (shl32 (get_or block offset 0) 24) (shl32 (get_or block (offset + 1) 0) 16))
        (shl32 (get_or block (offset + 2) 0) 8))
      (get_or block (offset + 3) 0)
    ∷ load_words n (i + 1) block

-- The second loop: the word at `i`, for `i` from 16 on, behind those that are there.
unfoldable pub extend_words : ℕ → ℕ → List ℕ → List ℕ
extend_words zero i words = words
extend_words (suc n) i words =
    let w15 = get_or words (i - 15) 0 in
    let w2 = get_or words (i - 2) 0 in
    let s0 = bit_xor (bit_xor (rotate_right w15 7) (rotate_right w15 18)) (shr w15 3) in
    let s1 = bit_xor (bit_xor (rotate_right w2 17) (rotate_right w2 19)) (shr w2 10) in
    let w = u32 (u32 (u32 (get_or words (i - 16) 0 + s0) + get_or words (i - 7) 0) + s1) in
    extend_words n (i + 1) (words ++ w ∷ [])

-- The working variables.
pub record Vars : Type 0 where
  pub a : ℕ
  pub b : ℕ
  pub c : ℕ
  pub d : ℕ
  pub e : ℕ
  pub f : ℕ
  pub g : ℕ
  pub h : ℕ

unfoldable pub round : ℕ → ℕ → Vars → Vars
round k w v =
    let sum1 = bit_xor (bit_xor (rotate_right v.e 6) (rotate_right v.e 11)) (rotate_right v.e 25) in
    let choose = bit_xor (bit_and v.e v.f) (bit_and (not32 v.e) v.g) in
    let temporary1 = u32 (u32 (u32 (u32 (v.h + sum1) + choose) + k) + w) in
    let sum0 = bit_xor (bit_xor (rotate_right v.a 2) (rotate_right v.a 13)) (rotate_right v.a 22) in
    let majority = bit_xor (bit_xor (bit_and v.a v.b) (bit_and v.a v.c)) (bit_and v.b v.c) in
    let temporary2 = u32 (sum0 + majority) in
    record {
      a = u32 (temporary1 + temporary2);
      b = v.a;
      c = v.b;
      d = v.c;
      e = u32 (v.d + temporary1);
      f = v.e;
      g = v.f;
      h = v.g;
    }

-- The third loop, along the constants and the words.
unfoldable pub rounds : List ℕ → List ℕ → Vars → Vars
rounds [] words v = v
rounds (k ∷ ks) [] v = v
rounds (k ∷ ks) (w ∷ words) v = rounds ks words (round k w v)

unfoldable pub load_vars : List ℕ → Vars
load_vars state = record {
  a = get_or state 0 0;
  b = get_or state 1 0;
  c = get_or state 2 0;
  d = get_or state 3 0;
  e = get_or state 4 0;
  f = get_or state 5 0;
  g = get_or state 6 0;
  h = get_or state 7 0;
}

unfoldable pub transform : List ℕ → List ℕ → List ℕ
transform state block =
    let s = load_vars state in
    let v = rounds constants (extend_words 48 16 (load_words 16 0 block)) s in
    u32 (s.a + v.a)
    ∷ u32 (s.b + v.b)
    ∷ u32 (s.c + v.c)
    ∷ u32 (s.d + v.d)
    ∷ u32 (s.e + v.e)
    ∷ u32 (s.f + v.f)
    ∷ u32 (s.g + v.g)
    ∷ u32 (s.h + v.h)
    ∷ []
