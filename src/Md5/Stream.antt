-- ===== src/Md5/Stream.antt =====
-- What a context of md5.c holds while it reads a message.
use stdc.Prelude.Bits.{bit_and-mask}
use stdc.Prelude.Blocks.{chain}
use stdc.Prelude.Word.{u32, u64, shr, shl32}
use stdc.Prelude.{
  ℕ, zero, suc, ◌+◌, ◌*◌, ◌^◌, ◌≤◌, ◌<◌, ◌≡◌, refl, sym, ap, ap₂, ◌∙◌, inl, inr, List, [], ◌++◌,
  arith, length, take, drop, drop-drop, false, true, some, Bool-cases, leb, ltb,
}
use stdc.Md5.Context.{
  ContextMd5, md5_initial_state, md5_init, index_of, count_bytes, md5_transform_loop,
}
use stdc.Md5.Transform.{md5_transform}

-- The two words of the counter are the length of the message in bits.
pub record Counts (ctx : ContextMd5) (n : ℕ) : Type 0 where
  pub low : ctx.count0 < 2 ^ 32
  pub high : ctx.count1 < 2 ^ 32
  pub bits : ctx.count0 + 2 ^ 32 * ctx.count1 ≡ u64 (8 * n)

-- The bytes so far are whole blocks, compressed into the state, and a rest that stands at the
-- start of the buffer.
pub record Streams (ctx : ContextMd5) (m : List ℕ) : Type 0 where
  pub done : List ℕ
  pub rest : List ℕ
  pub blocks : ℕ
  pub unused : List ℕ
  pub split : m ≡ done ++ rest
  pub whole : length done ≡ 64 * blocks
  pub buffered : ctx.buffer ≡ rest ++ unused
  pub room : length rest + length unused ≡ 64
  pub short : length rest < 64
  pub counted : Counts ctx (length m)
  pub hashed : ctx.state ≡ chain md5_transform blocks md5_initial_state done

pub md5_init-Streams : (junk : List ℕ) → length junk ≡ 64 → Streams (md5_init junk) []
unfolding md5_init
md5_init-Streams junk h = record {
  done = [];
  rest = [];
  blocks = 0;
  unused = junk;
  split = refl;
  whole = refl;
  buffered = refl;
  room = omega arith;
  short = omega arith;
  counted = record { low = omega arith; high = omega arith; bits = refl };
  hashed = unfold chain in refl;
}

pub count_bytes-Counts :
    (ctx : ContextMd5) (k n : ℕ) → n < 2 ^ 32 → Counts ctx k → Counts (count_bytes ctx n) (k + n)
unfolding count_bytes
count_bytes-Counts ctx k n h c =
    elim (Bool-cases (ltb (u32 (ctx.count0 + shl32 n 3)) (shl32 n 3))) [
      | inl carry ↦
          let over : u32 (ctx.count0 + shl32 n 3) < shl32 n 3 = ground arith in
          rw carry record {
            low = omega arith;
            high = omega arith;
            bits = omega (arith, c.low, c.high, c.bits);
          }
      | inr none ↦
          let under : shl32 n 3 ≤ u32 (ctx.count0 + shl32 n 3) = ground arith in
          rw none record {
            low = omega arith;
            high = omega arith;
            bits = omega (arith, c.low, c.high, c.bits);
          }
    ]

pub index_of_lem :
    (ctx : ContextMd5) (b r : ℕ) → r < 64 → Counts ctx (64 * b + r) → index_of ctx ≡ r
index_of_lem ctx b r h c = bit_and-mask 6 (shr ctx.count0 3) ∙ omega (arith, c.low, c.high, c.bits)

-- The loop ends behind the last whole block, with these blocks compressed.
pub md5_transform_loop-chain :
    (fuel k i n : ℕ) (state input : List ℕ)
    → n + 64 < 2 ^ 32
    → k < fuel
    → i + 64 * k ≤ n
    → n < i + 64 * k + 64
    → md5_transform_loop fuel i n state input
      ≡ some (chain md5_transform k state (drop i input), i + 64 * k)
unfolding md5_transform_loop chain
md5_transform_loop-chain zero k i n state input h enough p q = absurd (omega arith)
md5_transform_loop-chain (suc fuel) zero i n state input h enough p q =
    let stop : leb (u32 (i + 64)) n ≡ false = ground arith in
    let e : i ≡ i + 64 * 0 = omega arith in rw stop (ap (λ t. some (state, t)) e)
md5_transform_loop-chain (suc fuel) (suc k) i n state input h enough p q =
    let go : leb (u32 (i + 64)) n ≡ true = ground arith in
    let here : u32 (i + 64) ≡ i + 64 = omega arith in
    let there : i + 64 + 64 * k ≡ i + 64 * suc k = omega arith in
    let block = take 64 (drop i input) in
    rw go (
      ap (λ t. md5_transform_loop fuel t n (md5_transform state block) input) here
      ∙ md5_transform_loop-chain fuel k (i + 64) n (md5_transform state block) input h (omega arith)
          (omega arith) (omega arith)
      ∙ ap₂ (λ s t. some (chain md5_transform k (md5_transform state block) s, t))
          (sym (drop-drop i 64 input)) there)
