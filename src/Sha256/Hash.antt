-- ===== src/Sha256/Hash.antt =====
-- The one-call functions of sha256.c, HMAC, and the helpers on memory regions.
use stdc.Prelude.Word.{u8, shr, bit_and, bit_or, bit_xor}
use stdc.Prelude.{
  ℕ, zero, suc, ◌-◌, Bool, List, [], ◌∷◌, ◌++◌, map, ltb, ◌==◌, if◌then◌else◌, length, get_or, take,
  replicate,
}
use stdc.Sha256.Context.{Sha256Context, init, update, final}

-- A buffer on the stack holds anything before it is written: `junk` is the block buffer.
unfoldable pub digest : List ℕ → List ℕ → List ℕ
digest junk input = (final (update (init junk) input)).0

abbrev pub digits : List ℕ
digits =
    b'0' ∷ b'1' ∷ b'2' ∷ b'3' ∷ b'4' ∷ b'5' ∷ b'6' ∷ b'7' ∷ b'8' ∷ b'9' ∷ b'a' ∷ b'b' ∷ b'c' ∷ b'd'
    ∷ b'e' ∷ b'f' ∷ []

-- `__sha256_hex_encode__`, with the zero at the end.
unfoldable pub hex_digits : List ℕ → List ℕ
hex_digits [] = []
hex_digits (x ∷ bytes) =
    get_or digits (shr x 4) 0 ∷ get_or digits (bit_and x 0x0f) 0 ∷ hex_digits bytes

unfoldable pub hex_encode : List ℕ → List ℕ
hex_encode bytes = hex_digits bytes ++ 0 ∷ []

-- `sha256_string` at a string that is there.
unfoldable pub sha256_string : List ℕ → List ℕ → List ℕ
sha256_string junk input = hex_encode (digest junk input)

-- The loop of `sha256_file`: the list is what the calls of `fread` return, up to the first that
-- returns nothing.
unfoldable pub update_chunks : Sha256Context → List (List ℕ) → Sha256Context
update_chunks ctx [] = ctx
update_chunks ctx (chunk ∷ chunks) = update_chunks (update ctx chunk) chunks

unfoldable pub sha256_file : List ℕ → List (List ℕ) → List ℕ
sha256_file junk chunks = hex_encode (final (update_chunks (init junk) chunks)).0

pub record Hmac256Context : Type 0 where
  pub inner : Sha256Context
  pub outer_pad : List ℕ

-- `hmac_sha256_init`: a long key is hashed, a short one is padded with zeros.
unfoldable pub normalize_key : List ℕ → List ℕ → List ℕ
normalize_key junk key =
    if ltb 64 (length key)
    then digest junk key ++ replicate 32 0
    else key ++ replicate (64 - length key) 0

unfoldable pub hmac_init : List ℕ → List ℕ → Hmac256Context
hmac_init junk key =
    let normalized_key = normalize_key junk key in
    record {
      inner = update (init junk) (map (λ x. bit_xor x 0x36) normalized_key);
      outer_pad = map (λ x. bit_xor x 0x5c) normalized_key;
    }

unfoldable pub hmac_update : Hmac256Context → List ℕ → Hmac256Context
hmac_update ctx bytes = record ctx { inner = update ctx.inner bytes }

unfoldable pub hmac_final : List ℕ → Hmac256Context → List ℕ
hmac_final junk ctx =
    let (inner_digest, gone) = final ctx.inner in
    (final (update (update (init junk) ctx.outer_pad) inner_digest)).0

unfoldable pub hmac_sha256 : List ℕ → List ℕ → List ℕ → List ℕ
hmac_sha256 junk key bytes = hmac_final junk (hmac_update (hmac_init junk key) bytes)

-- `secure_memequal`: the loop over both regions at once.
unfoldable pub difference : ℕ → List ℕ → List ℕ → ℕ
difference acc [] b = acc
difference acc (x ∷ a) [] = acc
difference acc (x ∷ a) (y ∷ b) = difference (u8 (bit_or acc (bit_xor x y))) a b

unfoldable pub secure_memequal : List ℕ → List ℕ → ℕ → Bool
secure_memequal left right n = difference 0 (take n left) (take n right) == 0

-- `secure_memzero`
unfoldable pub secure_memzero : List ℕ → ℕ → List ℕ
secure_memzero [] n = []
secure_memzero (x ∷ bytes) zero = x ∷ bytes
secure_memzero (x ∷ bytes) (suc n) = 0 ∷ secure_memzero bytes n
