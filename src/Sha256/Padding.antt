-- ===== src/Sha256/Padding.antt =====
-- The standard's digest as padding to whole blocks and then one compression for each block, apart from
-- the streaming code of sha256.c, with the code's own first state, compression and order of bytes.
use stdc.Prelude.Word.{u8, shr}
use stdc.Prelude.{
  ℕ, zero, suc, ◌+◌, ◌-◌, ◌*◌, ◌/◌, ◌%◌, ◌≤◌, ◌≡◌, ap, ap₂, ◌∙◌, List, [], ◌∷◌, ◌++◌, arith, length,
  take, drop, replicate, length-append, length-drop, length-replicate, take-append_le,
  drop-append_le, take-all,
}
use stdc.Sha256.Context.{initial_state, encode_state}
use stdc.Sha256.Transform.{transform}

-- The chain of compressions over `n` blocks of 64 bytes.
unfoldable pub compress : ℕ → List ℕ → List ℕ → List ℕ
compress zero state bytes = state
compress (suc n) state bytes = compress n (transform state (take 64 bytes)) (drop 64 bytes)

-- A 64-bit number, most significant byte first.
abbrev pub big_endian : ℕ → List ℕ
big_endian n =
    u8 (shr n 56)
    ∷ u8 (shr n 48)
    ∷ u8 (shr n 40)
    ∷ u8 (shr n 32)
    ∷ u8 (shr n 24)
    ∷ u8 (shr n 16)
    ∷ u8 (shr n 8)
    ∷ u8 (shr n 0)
    ∷ []

-- One bit, then the fewest zeros that leave eight bytes of the last block for the length in bits.
unfoldable pub pad : List ℕ → List ℕ
pad m = m ++ (0x80 ∷ (replicate ((119 - length m % 64) % 64) 0 ++ big_endian (8 * length m)))

unfoldable pub standard_digest : List ℕ → List ℕ
standard_digest m = encode_state (compress (length (pad m) / 64) initial_state (pad m))

pub compress-append :
    (n k : ℕ) (state a b : List ℕ)
    → length a ≡ 64 * n
    → compress (n + k) state (a ++ b) ≡ compress k (compress n state a) b
unfolding compress
compress-append zero k state [] b h = let e : 0 + k ≡ k = omega arith in rw e
compress-append zero k state (x ∷ a) b h = absurd (omega arith)
compress-append (suc n) k state a b h =
    let e : suc n + k ≡ suc (n + k) = omega arith in
    let fits : 64 ≤ length a = omega arith in
    ap (λ t. compress t state (a ++ b)) e
    ∙ ap₂ (λ t d. compress (n + k) (transform state t) d) (take-append_le 64 a b fits)
        (drop-append_le 64 a b fits)
    ∙ compress-append n k (transform state (take 64 a)) (drop 64 a) b
        (omega (arith, length-drop 64 a))

pub compress-one : (state a : List ℕ) → length a ≡ 64 → compress 1 state a ≡ transform state a
unfolding compress
compress-one state a h = rw (take-all 64 a (omega arith))

-- Padding fills whole blocks.
pub length-pad : (m : List ℕ) → length (pad m) % 64 ≡ 0
unfolding pad
length-pad m = omega (
  arith,
  length-append m (0x80 ∷ (replicate ((119 - length m % 64) % 64) 0 ++ big_endian (8 * length m))),
  length-append (replicate ((119 - length m % 64) % 64) 0) (big_endian (8 * length m)),
  length-replicate {A = ℕ} ((119 - length m % 64) % 64) 0,
)
