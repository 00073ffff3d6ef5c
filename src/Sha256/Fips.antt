-- ===== src/Sha256/Fips.antt =====
-- The digests of sha256.c are those of FIPS 180-4.
use stdc.Prelude.Blocks.{chain}
use stdc.Prelude.Word.{u8, shr}
use stdc.Prelude.{
  ℕ, zero, suc, ◌-◌, ◌*◌, ◌/◌, ◌%◌, ◌≤◌, ◌≡◌, refl, ap, ◌∙◌, List, arith, length, length-take,
  length-drop, take, drop, replicate, All, All-take, All-drop, All-append, All-replicate,
}
use stdc.Sha256.Agreement.{IsState, transform-standard_compress}
use stdc.Sha256.Context.{initial_state}
use stdc.Sha256.Digest.{digest-standard_digest}
use stdc.Sha256.Hash.{digest}
use stdc.Sha256.Padding.{compress, big_endian, pad, standard_digest}
use stdc.Sha256.Standard.{standard_compress, write_words, fips_digest}
use stdc.Sha256.Words.{IsByte, initial_lem, encode_state-write_words}

big_endian-All : (n : ℕ) → All IsByte (big_endian n)
big_endian-All n =
    let byte : (k : ℕ) → IsByte (u8 (shr n k)) = λ k. omega arith in
    (byte 56, (byte 48, (byte 40, (byte 32, (byte 24, (byte 16, (byte 8, (byte 0, tt))))))))

pad-All : (m : List ℕ) → All IsByte m → All IsByte (pad m)
unfolding pad
pad-All m h = All-append IsByte m _ h (
  omega arith,
  All-append IsByte (replicate ((119 - length m % 64) % 64) 0) (big_endian (8 * length m))
      (All-replicate IsByte ((119 - length m % 64) % 64) 0 (omega arith))
      (big_endian-All (8 * length m)),
)

compress-chain :
    (n : ℕ) (state m : List ℕ)
    → IsState state
    → 64 * n ≤ length m
    → All IsByte m
    → compress n state m ≡ chain standard_compress n state m
unfolding compress chain
compress-chain zero state m s l h = refl
compress-chain (suc n) state m s l h =
    let (same, next) =
      transform-standard_compress state (take 64 m) s (omega (arith, length-take 64 m))
        (All-take IsByte 64 m h) in
    compress-chain n _ (drop 64 m) next (omega (arith, length-drop 64 m)) (All-drop IsByte 64 m h)
    ∙ ap (λ t. chain standard_compress n t (drop 64 m)) same

initial-IsState : IsState initial_state
initial-IsState = (
  refl,
  (
    omega arith,
    (
      omega arith,
      (omega arith, (omega arith, (omega arith, (omega arith, (omega arith, (omega arith, tt)))))),
    ),
  ),
)

standard_digest-fips_digest : (m : List ℕ) → All IsByte m → standard_digest m ≡ fips_digest m
unfolding standard_digest fips_digest
standard_digest-fips_digest m h =
    encode_state-write_words (compress (length (pad m) / 64) initial_state (pad m))
    ∙ ap write_words (
        compress-chain (length (pad m) / 64) initial_state (pad m) initial-IsState (omega arith)
          (pad-All m h)
        ∙ ap (λ s. chain standard_compress (length (pad m) / 64) s (pad m)) initial_lem)

-- `sha256_init`, `sha256_update` and `sha256_final` compute, for every message of bytes, the digest
-- of FIPS 180-4, which is described apart from the code: with its padding, its compression, its
-- constants from the roots of primes and its order of bytes; and whatever the 64 bytes of the block
-- buffer held before.
pub digest-fips_digest :
    (junk m : List ℕ) → length junk ≡ 64 → All IsByte m → digest junk m ≡ fips_digest m
digest-fips_digest junk m h bytes =
    digest-standard_digest junk m h ∙ standard_digest-fips_digest m bytes
