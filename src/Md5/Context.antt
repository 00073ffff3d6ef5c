-- ===== src/Md5/Context.antt =====
-- `_ContextMD5` and the functions of md5.c that use it.
use stdc.Prelude.Blocks.{copy_into}
use stdc.Prelude.Word.{u32, shr, shl32, bit_and}
use stdc.Prelude.{
  ℕ, zero, suc, ◌+◌, ◌-◌, ◌/◌, List, [], ◌∷◌, ltb, leb, if◌then◌else◌, length, get_or, take, drop,
  replicate, Option, none, some,
}
use stdc.Md5.Transform.{md5_transform}
use stdc.Sha256.Hash.{hex_encode}

pub record ContextMd5 : Type 0 where
  pub count0 : ℕ
  pub count1 : ℕ
  pub state : List ℕ
  pub buffer : List ℕ

abbrev pub padding : List ℕ
padding = 0x80 ∷ replicate 63 0

abbrev pub md5_initial_state : List ℕ
md5_initial_state = 0x67452301 ∷ 0xefcdab89 ∷ 0x98badcfe ∷ 0x10325476 ∷ []

-- `__md5_init__` leaves the buffer as it is.
unfoldable pub md5_init : List ℕ → ContextMd5
md5_init buffer = record { count0 = 0; count1 = 0; state = md5_initial_state; buffer = buffer }

abbrev pub index_of : ContextMd5 → ℕ
index_of context = bit_and (shr context.count0 3) 0x3f

-- The two words of the counter after `length` more bytes.
unfoldable pub count_bytes : ContextMd5 → ℕ → ContextMd5
count_bytes context length =
    let count0 = u32 (context.count0 + shl32 length 3) in
    let count1 = if ltb count0 (shl32 length 3) then u32 (context.count1 + 1) else context.count1 in
    record context { count0 = count0; count1 = u32 (count1 + shr length 29) }

-- A call that may not return, and what comes behind it.
infixl 5 ◌>>=◌
abbrev ◌>>=◌ : {A B : Type 0} → Option A → (A → Option B) → Option B
◌>>=◌ r f = elim r [ none ↦ none | some x ↦ f x ]

-- `for (i = partlen; i + 64 <= length; i = i + 64)` on 32-bit words, with the state and `i` at its
-- end; `none` where `fuel` tests of the condition do not end it.
unfoldable pub md5_transform_loop : ℕ → ℕ → ℕ → List ℕ → List ℕ → Option (List ℕ × ℕ)
md5_transform_loop zero i length state input = none
md5_transform_loop (suc fuel) i length state input =
    let rest =
      md5_transform_loop fuel (u32 (i + 64)) length (md5_transform state (take 64 (drop i input)))
        input in
    if leb (u32 (i + 64)) length then rest else some (state, i)

-- `__md5_update__` on the first `length` bytes of `input`, an `unsigned int`.
unfoldable pub md5_update : ContextMd5 → List ℕ → ℕ → Option ContextMd5
md5_update context input length =
    let index = index_of context in
    let partlen = 64 - index in
    let counted = count_bytes context length in
    if leb partlen length
    then (let buffer = copy_into context.buffer index (take partlen input) in
        do
          (state, i) ←
              md5_transform_loop (length / 64 + 1) partlen length
                (md5_transform context.state buffer) input
          some (record counted {
            state = state;
            buffer = copy_into buffer 0 (take (length - i) (drop i input));
          }))
    else some (record counted { buffer = copy_into context.buffer index (take length input) })

-- The rounds of `__md5_encode__`, for `n` words from word `i` on.
unfoldable pub md5_encode : ℕ → ℕ → List ℕ → List ℕ
md5_encode zero i input = []
md5_encode (suc n) i input =
    let x = get_or input i 0 in
    bit_and x 0xff
    ∷ bit_and (shr x 8) 0xff
    ∷ bit_and (shr x 16) 0xff
    ∷ bit_and (shr x 24) 0xff
    ∷ md5_encode n (i + 1) input

-- `__md5_finalize__`: the digest.
unfoldable pub md5_finalize : ContextMd5 → Option (List ℕ)
md5_finalize context =
    let index = index_of context in
    let padlen = if ltb index 56 then 56 - index else 120 - index in
    let bits = md5_encode 2 0 (context.count0 ∷ context.count1 ∷ []) in
    do
      padded ← md5_update context padding padlen
      last ← md5_update padded bits 8
      some (md5_encode 4 0 last.state)

-- `md5_string`: `strlen` is cut to an `unsigned int`. The format "%02x" writes what
-- `__sha256_hex_encode__` writes.
unfoldable pub md5_string : List ℕ → List ℕ → Option (List ℕ)
md5_string junk input = do
  context ← md5_update (md5_init junk) input (u32 (length input))
  digest ← md5_finalize context
  some (hex_encode digest)

-- The loop of `md5_file` over what the calls of `fread` return.
unfoldable pub md5_update_chunks : ContextMd5 → List (List ℕ) → Option ContextMd5
md5_update_chunks context [] = some context
md5_update_chunks context (chunk ∷ chunks) = do
  updated ← md5_update context chunk (u32 (length chunk))
  md5_update_chunks updated chunks

unfoldable pub md5_file : List ℕ → List (List ℕ) → Option (List ℕ)
md5_file junk chunks = do
  context ← md5_update_chunks (md5_init junk) chunks
  digest ← md5_finalize context
  some (hex_encode digest)
