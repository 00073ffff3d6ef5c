-- ===== src/Sha256/Hex.antt =====
-- `__sha256_hex_encode__` of sha256.c, and what reads its result back.
use stdc.Prelude.Word.{shr, bit_and}
use stdc.Prelude.Bits.{bit_and-mask}
use stdc.Prelude.{
  ℕ, zero, suc, ◌+◌, ◌-◌, ◌*◌, ◌%◌, ◌<◌, ◌≡◌, refl, ap, ap₂, ◌∙◌, List, [], ◌∷◌, arith, length,
  get_or, All, ltb, if◌then◌else◌, Bool, true, ◌&&◌, ◌==◌, Bool-cases, inl, inr,
}
use stdc.Sha256.Hash.{digits, hex_digits, hex_encode}

-- The value of a lower-case hexadecimal digit.
unfoldable pub digit_value : ℕ → ℕ
digit_value c = if ltb c 58 then c - 48 else c - 87

-- The bytes that a text of hexadecimal digits stands for, up to its zero.
unfoldable pub hex_decode : List ℕ → List ℕ
hex_decode [] = []
hex_decode (c ∷ []) = []
hex_decode (c ∷ d ∷ s) = (digit_value c * 16 + digit_value d) ∷ hex_decode s

-- Every digit below `n` reads back as its value.
reads_below : ℕ → Bool
reads_below zero = true
reads_below (suc n) = (digit_value (get_or digits n 0) == n) && reads_below n

reads_below_lem : (n k : ℕ) → reads_below n ≡ true → k < n → digit_value (get_or digits k 0) ≡ k
unfolding reads_below
reads_below_lem zero k e h = absurd (omega arith)
reads_below_lem (suc n) k e h = elim (Bool-cases (k == n)) [
  | inl here ↦ let same : k ≡ n = ground arith in rw same (ground arith)
  | inr other ↦ reads_below_lem n k (ground arith) (ground arith)
]

digit_value-digits : (k : ℕ) → k < 16 → digit_value (get_or digits k 0) ≡ k
digit_value-digits k h = reads_below_lem 16 k (unfold reads_below digit_value in refl) h

-- The encoding of bytes by `__sha256_hex_encode__` is two digits for each and a zero, and decoding
-- gives the bytes back, so that no two digests share a text.
pub hex_decode-hex_encode :
    (bytes : List ℕ)
    → All (λ x. x < 256) bytes
    → (hex_decode (hex_encode bytes) ≡ bytes) × (length (hex_encode bytes) ≡ 2 * length bytes + 1)
unfolding hex_encode hex_digits hex_decode
hex_decode-hex_encode [] p = (refl, refl)
hex_decode-hex_encode (x ∷ bytes) p =
    let mask : bit_and x 0x0f ≡ x % 16 = bit_and-mask 4 x in
    let high = digit_value-digits (shr x 4) (omega (arith, p.0)) in
    let low = digit_value-digits (x % 16) (omega arith) in
    let rest = hex_decode-hex_encode bytes p.1 in
    (
      ap₂ ◌∷◌
          (ap (λ t. digit_value (get_or digits (shr x 4) 0) * 16 + digit_value (get_or digits t 0))
              mask
            ∙ omega (arith, high, low))
          rest.0,
      omega (arith, rest.1),
    )
