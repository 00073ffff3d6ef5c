-- ===== src/Md5/Hex.antt =====
-- The text of a digest: two lower-case digits a byte.
use stdc.Md5.Standard.{hex_digit, hex_text}
use stdc.Md5.Words.{IsByte}
use stdc.Prelude.Bits.{bit_and-mask}
use stdc.Prelude.Word.{shr, bit_and}
use stdc.Prelude.{
  ℕ, zero, suc, ◌/◌, ◌%◌, ◌^◌, ◌<◌, ◌≡◌, refl, ap, ap₂, ◌∙◌, List, [], ◌∷◌, arith, get_or, All,
  true, Bool, ◌&&◌, ◌==◌, Bool-cases, inl, inr,
}
use stdc.Sha256.Hash.{digits, hex_digits, hex_encode}

-- The table of digits agrees below `n`.
agrees_below : ℕ → Bool
agrees_below zero = true
agrees_below (suc n) = (get_or digits n 0 == hex_digit n) && agrees_below n

agrees_below_lem : (n k : ℕ) → agrees_below n ≡ true → k < n → get_or digits k 0 ≡ hex_digit k
unfolding agrees_below
agrees_below_lem zero k e h = absurd (omega arith)
agrees_below_lem (suc n) k e h = elim (Bool-cases (k == n)) [
  | inl here ↦ let same : k ≡ n = ground arith in rw same (ground arith)
  | inr other ↦ agrees_below_lem n k (ground arith) (ground arith)
]

digits_lem : (k : ℕ) → k < 16 → get_or digits k 0 ≡ hex_digit k
digits_lem k h = agrees_below_lem 16 k (unfold agrees_below hex_digit in refl) h

pub hex_encode-hex_text : (bytes : List ℕ) → All IsByte bytes → hex_encode bytes ≡ hex_text bytes
unfolding hex_encode hex_digits hex_text
hex_encode-hex_text [] h = refl
hex_encode-hex_text (x ∷ bytes) h =
    let mask : bit_and x 0x0f ≡ x % 16 = bit_and-mask 4 x in
    let high : get_or digits (shr x 4) 0 ≡ hex_digit (x / 16) =
      digits_lem (x / 2 ^ 4) (omega (arith, h.0)) in
    let low : get_or digits (bit_and x 0x0f) 0 ≡ hex_digit (x % 16) =
      ap (λ t. get_or digits t 0) mask ∙ digits_lem (x % 16) (omega arith) in
    ap₂ ◌∷◌ high (ap₂ ◌∷◌ low (hex_encode-hex_text bytes h.1))
