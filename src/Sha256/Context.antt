-- ===== src/Sha256/Context.antt =====
-- `SHA256Context` and its three operations.
use stdc.Prelude.Word.{u8, u64, shr}
use stdc.Prelude.{
  ℕ, zero, suc, ◌+◌, ◌-◌, ◌*◌, List, [], ◌∷◌, ltb, ◌==◌, if◌then◌else◌, set, replicate,
}
use stdc.Sha256.Transform.{transform}

pub record Sha256Context : Type 0 where
  pub state : List ℕ
  pub bit_length : ℕ
  pub block : List ℕ
  pub block_length : ℕ

abbrev pub initial_state : List ℕ
initial_state =
    0x6a09e667 ∷ 0xbb67ae85 ∷ 0x3c6ef372 ∷ 0xa54ff53a ∷ 0x510e527f ∷ 0x9b05688c ∷ 0x1f83d9ab
    ∷ 0x5be0cd19 ∷ []

-- `sha256_init` leaves the block buffer as it is.
unfoldable pub init : List ℕ → Sha256Context
init buffer = record { state = initial_state; bit_length = 0; block = buffer; block_length = 0 }

-- One round of the loop in `sha256_update`.
unfoldable pub update_byte : Sha256Context → ℕ → Sha256Context
update_byte ctx input =
    let block = set ctx.block ctx.block_length input in
    let block_length = ctx.block_length + 1 in
    if block_length == 64
    then record {
      state = transform ctx.state block;
      bit_length = u64 (ctx.bit_length + 512);
      block = block;
      block_length = 0;
    }
    else record ctx { block = block; block_length = block_length }

unfoldable pub update : Sha256Context → List ℕ → Sha256Context
update ctx [] = ctx
update ctx (x ∷ input) = update (update_byte ctx x) input

-- `while (index < bound) block[index++] = 0`, with `n` rounds to go.
unfoldable pub zero_fill : ℕ → ℕ → List ℕ → List ℕ
zero_fill zero index block = block
zero_fill (suc n) index block = zero_fill n (index + 1) (set block index 0)

-- `block[63 - i] = (byte)(bit_length >> (i * 8))`, for `n` rounds from `i` on.
unfoldable pub store_length : ℕ → ℕ → ℕ → List ℕ → List ℕ
store_length zero i bit_length block = block
store_length (suc n) i bit_length block =
    store_length n (i + 1) bit_length (set block (63 - i) (u8 (shr bit_length (i * 8))))

-- The bytes of the state words, most significant first.
unfoldable pub encode_state : List ℕ → List ℕ
encode_state [] = []
encode_state (x ∷ state) = u8 (shr x 24) ∷ u8 (shr x 16) ∷ u8 (shr x 8) ∷ u8 x ∷ encode_state state

-- `secure_memzero` over the context.
abbrev pub cleared : Sha256Context
cleared = record { state = replicate 8 0; bit_length = 0; block = replicate 64 0; block_length = 0 }

-- `sha256_final`: the state with which the last block is compressed, and that block.
unfoldable pub last_block : Sha256Context → List ℕ × List ℕ
last_block ctx =
    let index = ctx.block_length + 1 in
    let block = set ctx.block ctx.block_length 0x80 in
    let bit_length = u64 (ctx.bit_length + ctx.block_length * 8) in
    if ltb 56 index
    then (let full = zero_fill (64 - index) index block in
        (transform ctx.state full, store_length 8 0 bit_length (zero_fill 56 0 full)))
    else (ctx.state, store_length 8 0 bit_length (zero_fill (56 - index) index block))

unfoldable pub final : Sha256Context → List ℕ × Sha256Context
final ctx = let (state, block) = last_block ctx in (encode_state (transform state block), cleared)
