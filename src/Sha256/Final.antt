-- ===== src/Sha256/Final.antt =====
-- `sha256_final`: its padding in place is the standard's padding.
use mathlib.Core.List.{append-nil, append_assoc}
use stdc.Prelude.Word.{u64}
use stdc.Prelude.{
  ℕ, ◌+◌, ◌-◌, ◌*◌, ◌%◌, ◌≤◌, ◌<◌, ◌≡◌, refl, sym, ap, ap₂, ◌∙◌, inl, inr, List, [], ◌∷◌, ◌++◌,
  arith, length, set, drop, replicate, length-append, length-drop, length-replicate, set-end,
  drop-all, Bool-cases, ltb,
}
use stdc.Sha256.Context.{
  Sha256Context, initial_state, zero_fill, store_length, encode_state, last_block, final,
}
use stdc.Sha256.Padding.{compress, compress-append, compress-one, big_endian, pad, standard_digest}
use stdc.Sha256.Stream.{Streams}
use stdc.Sha256.Transform.{transform}
use stdc.Sha256.Fill.{
  zero_fill-append, store_length-big_endian, replicate-add, big_endian-wrap, standard_digest-blocks,
}

module _ {ctx : Sha256Context} {m : List ℕ} (s : Streams ctx m) where
  -- The bytes of the last, partial block, with the mark behind them.
  abbrev lead : List ℕ
  lead = s.rest ++ 0x80 ∷ []

  -- What stands behind the mark in the buffer.
  abbrev behind : List ℕ
  behind = drop 1 s.unused

  abbrev bits : ℕ
  bits = u64 (ctx.bit_length + ctx.block_length * 8)

  abbrev length_bytes : List ℕ
  length_bytes = big_endian (8 * length m)

  length-lead : length lead ≡ ctx.block_length + 1
  length-lead = omega (arith, length-append s.rest (0x80 ∷ []))

  length-behind : length behind ≡ 63 - ctx.block_length
  length-behind = omega (arith, length-drop 1 s.unused)

  length-message : length m ≡ 64 * s.blocks + ctx.block_length
  length-message = omega (arith, ap length s.split, length-append s.done s.rest)

  marked : set ctx.block ctx.block_length 0x80 ≡ lead ++ behind
  marked = rw s.buffer (set-end s.rest s.unused ctx.block_length 0x80 s.partial (omega arith))

  bits_lem : big_endian bits ≡ length_bytes
  bits_lem =
      ap (λ t. big_endian (u64 (t + ctx.block_length * 8))) s.counted
      ∙ big_endian-wrap s.blocks ctx.block_length
      ∙ ap (λ t. big_endian (8 * t)) (sym length-message)

  filled :
      (z : ℕ)
      → z ≤ length behind
      → zero_fill z (ctx.block_length + 1) (set ctx.block ctx.block_length 0x80)
        ≡ (lead ++ replicate z 0) ++ drop z behind
  filled z fits =
      ap (zero_fill z (ctx.block_length + 1)) marked
      ∙ zero_fill-append z (ctx.block_length + 1) lead behind length-lead fits
      ∙ sym (append_assoc lead (replicate z 0) (drop z behind))

  padded :
      (z : ℕ)
      → z ≡ (119 - ctx.block_length) % 64
      → pad m ≡ s.done ++ ((lead ++ replicate z 0) ++ length_bytes)
  unfolding pad
  padded z e =
      let zeros : (119 - length m % 64) % 64 ≡ z = omega (arith, length-message) in
      ap (λ t. t ++ (0x80 ∷ (replicate ((119 - length m % 64) % 64) 0 ++ length_bytes))) s.split
      ∙ ap (λ k. (s.done ++ s.rest) ++ (0x80 ∷ (replicate k 0 ++ length_bytes))) zeros
      ∙ simp append_assoc

  -- The mark and the length fit in the last block.
  one_block :
      ctx.block_length + 1 ≤ 56
      → transform ctx.state (
          store_length 8 0 bits (
            zero_fill
              (56 - (ctx.block_length + 1))
              (ctx.block_length + 1)
              (set ctx.block ctx.block_length 0x80)))
        ≡ transform
            (compress s.blocks initial_state s.done)
            ((lead ++ replicate (56 - (ctx.block_length + 1)) 0) ++ length_bytes)
  one_block fits =
      let z = 56 - (ctx.block_length + 1) in
      let front : length (lead ++ replicate z 0) ≡ 56 =
        omega
          (arith, length-append lead (replicate z 0), length-replicate {A = ℕ} z 0, length-lead) in
      ap₂ transform s.hashed (
        ap (store_length 8 0 bits) (filled z (omega (arith, length-behind)))
        ∙ store_length-big_endian bits (lead ++ replicate z 0) (drop z behind) front
            (omega (arith, length-drop z behind, length-behind))
        ∙ ap (λ t. (lead ++ replicate z 0) ++ t) bits_lem)

  -- The length needs one more block.
  abbrev full_block : List ℕ
  full_block = lead ++ replicate (64 - (ctx.block_length + 1)) 0

  length-full_block : length full_block ≡ 64
  length-full_block =
      let z = 64 - (ctx.block_length + 1) in
      omega (arith, length-append lead (replicate z 0), length-replicate {A = ℕ} z 0, length-lead)

  full_block_lem :
      zero_fill
        (64 - (ctx.block_length + 1))
        (ctx.block_length + 1)
        (set ctx.block ctx.block_length 0x80)
      ≡ full_block
  full_block_lem =
      let z = 64 - (ctx.block_length + 1) in
      filled z (omega (arith, length-behind))
      ∙ ap (λ t. full_block ++ t) (drop-all z behind (omega (arith, length-behind)))
      ∙ append-nil full_block

  abbrev length_block : List ℕ
  length_block = replicate 56 0 ++ length_bytes

  length_block_lem : store_length 8 0 bits (zero_fill 56 0 full_block) ≡ length_block
  length_block_lem =
      ap (store_length 8 0 bits)
        (zero_fill-append 56 0 [] full_block refl (omega (arith, length-full_block)))
      ∙ store_length-big_endian bits (replicate 56 0) (drop 56 full_block) (length-replicate 56 0)
          (omega (arith, length-drop 56 full_block, length-full_block))
      ∙ ap (λ t. replicate 56 0 ++ t) bits_lem

  padded_over : 56 < ctx.block_length + 1 → pad m ≡ (s.done ++ full_block) ++ length_block
  padded_over over =
      let z = 64 - (ctx.block_length + 1) in
      padded (z + 56) (omega arith)
      ∙ ap (λ t. s.done ++ ((lead ++ t) ++ length_bytes)) (replicate-add z 56 0)
      ∙ simp append_assoc

  hashed_over :
      transform ctx.state full_block ≡ compress (s.blocks + 1) initial_state (s.done ++ full_block)
  hashed_over =
      ap (λ t. transform t full_block) s.hashed
      ∙ sym (compress-one (compress s.blocks initial_state s.done) full_block length-full_block)
      ∙ sym (compress-append s.blocks 1 initial_state s.done full_block s.whole)

  fitting :
      ctx.block_length + 1 ≤ 56
      → encode_state (
          transform ctx.state (
            store_length 8 0 bits (
              zero_fill
                (56 - (ctx.block_length + 1))
                (ctx.block_length + 1)
                (set ctx.block ctx.block_length 0x80))))
        ≡ standard_digest m
  fitting fits =
      let z = 56 - (ctx.block_length + 1) in
      ap encode_state (one_block fits)
      ∙ sym (
          standard_digest-blocks s.blocks m s.done ((lead ++ replicate z 0) ++ length_bytes)
            (padded z (omega arith)) s.whole
            (omega (
              arith,
              length-append (lead ++ replicate z 0) length_bytes,
              length-append lead (replicate z 0),
              length-replicate {A = ℕ} z 0,
              length-lead,
            )))

  spilling :
      56 < ctx.block_length + 1
      → (let full =
            zero_fill
              (64 - (ctx.block_length + 1))
              (ctx.block_length + 1)
              (set ctx.block ctx.block_length 0x80) in
          encode_state
            (transform (transform ctx.state full) (store_length 8 0 bits (zero_fill 56 0 full))))
        ≡ standard_digest m
  spilling over =
      ap
        (λ full.
          encode_state
            (transform (transform ctx.state full) (store_length 8 0 bits (zero_fill 56 0 full))))
        full_block_lem
      ∙ ap encode_state (ap₂ transform hashed_over length_block_lem)
      ∙ sym (
          standard_digest-blocks (s.blocks + 1) m (s.done ++ full_block) length_block
            (padded_over over) (omega (arith, length-append s.done full_block, length-full_block))
            (omega
              (arith, length-append (replicate 56 0) length_bytes, length-replicate {A = ℕ} 56 0)))

  -- On a context that holds a message, which is what `sha256_update` leaves, `sha256_final`
  -- returns the standard's digest of that message, whether or not the length needs a block of its
  -- own.
  pub final-standard_digest : (final ctx).0 ≡ standard_digest m
  unfolding final last_block
  final-standard_digest = elim (Bool-cases (ltb 56 (ctx.block_length + 1))) [
    | inr fits ↦ rw fits (fitting (ground arith))
    | inl over ↦ rw over (spilling (ground arith))
  ]
