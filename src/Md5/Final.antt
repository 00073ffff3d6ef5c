-- ===== src/Md5/Final.antt =====
-- `__md5_finalize__` pads and writes the state.
use mathlib.Core.List.{append-nil}
use stdc.Prelude.Bits.{bit_and-mask}
use stdc.Prelude.Blocks.{chain}
use stdc.Prelude.Word.{u8, u64, shr, bit_and}
use stdc.Prelude.{
  ℕ, zero, suc, ◌+◌, ◌-◌, ◌*◌, ◌/◌, ◌%◌, ◌^◌, ◌≤◌, ◌<◌, ◌≡◌, refl, sym, ap, ap₂, ◌∙◌, List, [], ◌∷◌,
  ◌++◌, arith, length, take, replicate, length-append, length-replicate, ltb, if◌then◌else◌, subst,
  some,
}
use stdc.Md5.Context.{
  ContextMd5, md5_initial_state, index_of, md5_update, md5_encode, padding, md5_finalize,
}
use stdc.Md5.Padding.{little_endian, mark, pad, rfc1321}
use stdc.Md5.Stream.{Counts, Streams, index_of_lem}
use stdc.Md5.Transform.{md5_transform}
use stdc.Md5.Update.{md5_update-Streams}

low_byte : (x : ℕ) → bit_and x 0xff ≡ u8 x
low_byte x = bit_and-mask 8 x

-- The two words of the counter, in bytes, are the length in bits.
md5_encode-little_endian :
    (a b n : ℕ)
    → a < 2 ^ 32
    → a + 2 ^ 32 * b ≡ u64 n
    → md5_encode 2 0 (a ∷ b ∷ []) ≡ little_endian n
unfolding md5_encode
md5_encode-little_endian a b n h e =
    let b0 : bit_and a 0xff ≡ u8 n = omega (arith, low_byte a) in
    let b1 : bit_and (shr a 8) 0xff ≡ u8 (shr n 8) = omega (arith, low_byte (shr a 8)) in
    let b2 : bit_and (shr a 16) 0xff ≡ u8 (shr n 16) = omega (arith, low_byte (shr a 16)) in
    let b3 : bit_and (shr a 24) 0xff ≡ u8 (shr n 24) = omega (arith, low_byte (shr a 24)) in
    let b4 : bit_and b 0xff ≡ u8 (shr n 32) = omega (arith, low_byte b) in
    let b5 : bit_and (shr b 8) 0xff ≡ u8 (shr n 40) = omega (arith, low_byte (shr b 8)) in
    let b6 : bit_and (shr b 16) 0xff ≡ u8 (shr n 48) = omega (arith, low_byte (shr b 16)) in
    let b7 : bit_and (shr b 24) 0xff ≡ u8 (shr n 56) = omega (arith, low_byte (shr b 24)) in
    cc (b0, b1, b2, b3, b4, b5, b6, b7)

take-replicate : (k n a : ℕ) → k ≤ n → take k (replicate n a) ≡ replicate k a
unfolding replicate
take-replicate zero n a h = refl
take-replicate (suc k) zero a h = absurd (omega arith)
take-replicate (suc k) (suc n) a h = ap (◌∷◌ a) (take-replicate k n a (omega arith))

-- A context that holds whole blocks has hashed them all.
Streams-whole :
    {ctx : ContextMd5} {m : List ℕ}
    → Streams ctx m
    → length m % 64 ≡ 0
    → ctx.state ≡ chain md5_transform (length m / 64) md5_initial_state m
Streams-whole {ctx} {m} s h =
    let total = length-append s.done s.rest in
    let split = ap length s.split in
    let none : length s.rest ≡ 0 = omega (arith, total, split, s.whole, s.short) in
    let e : s.done ≡ m =
      sym (s.split ∙ ap (λ t. s.done ++ t) (empty s.rest none) ∙ append-nil s.done) in
    let k : s.blocks ≡ length m / 64 = omega (arith, total, split, s.whole, s.short) in
    s.hashed ∙ ap₂ (λ k d. chain md5_transform k md5_initial_state d) k e
  where
    empty : (xs : List ℕ) → length xs ≡ 0 → xs ≡ []
    empty [] h = refl
    empty (x ∷ xs) h = absurd (omega arith)

module _ {ctx : ContextMd5} {m : List ℕ} (s : Streams ctx m) where
  length-message : length m ≡ 64 * s.blocks + length s.rest
  length-message = omega (arith, ap length s.split, length-append s.done s.rest)

  index_is : index_of ctx ≡ length s.rest
  index_is =
      index_of_lem ctx s.blocks (length s.rest) s.short
        (subst (Counts ctx) length-message s.counted)

  padlen_is :
      (if ltb (length s.rest) 56 then 56 - length s.rest else 120 - length s.rest)
      ≡ suc ((119 - length m % 64) % 64)
  padlen_is = ground (arith, length-message, s.short)

  taken : take (suc ((119 - length m % 64) % 64)) padding ≡ mark m
  taken = ap (◌∷◌ 0x80) (take-replicate ((119 - length m % 64) % 64) 63 0 (omega arith))

  padded :
      (after : ContextMd5) × ((md5_update ctx padding (suc ((119 - length m % 64) % 64))
          ≡ some after)
        × Streams after (m ++ mark m))
  padded =
      let (after, (e, held)) =
        md5_update-Streams s padding (suc ((119 - length m % 64) % 64))
          (omega (arith, length-replicate {A = ℕ} 63 0)) (omega arith) in
      (after, (e, subst (λ t. Streams after (m ++ t)) taken held))

  length-pad : length (pad m) % 64 ≡ 0
  unfolding pad
  length-pad = omega (
    arith,
    length-append (m ++ mark m) (little_endian (8 * length m)),
    length-append m (mark m),
    length-replicate {A = ℕ} ((119 - length m % 64) % 64) 0,
  )

  -- On a context that holds a message, `__md5_finalize__` returns and writes the digest.
  pub md5_finalize-rfc1321 : md5_finalize ctx ≡ some (rfc1321 m)
  unfolding md5_finalize rfc1321 pad
  md5_finalize-rfc1321 =
      let c = s.counted in
      let (first, (one, held)) = padded in
      let (last, (two, closed)) =
        md5_update-Streams held (little_endian (8 * length m)) 8 (omega arith) (omega arith) in
      rw
        (
          index_is,
          padlen_is,
          md5_encode-little_endian ctx.count0 ctx.count1 (8 * length m) c.low c.bits,
          one,
          two,
        )
        (ap (λ t. some (md5_encode 4 0 t)) (Streams-whole closed length-pad))
