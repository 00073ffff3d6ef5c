-- ===== src/Sha256/Words.antt =====
-- Bytes, words and their rotations in sha256.c, as FIPS 180-4 has them.
use mathlib.Core.List.{append_assoc}
use stdc.Prelude.Bits.{bit_or-fields, bit_or-low}
use stdc.Prelude.Word.{u8, shr, shl32, bit_or}
use stdc.Prelude.{
  ℕ, zero, suc, ◌+◌, ◌-◌, ◌*◌, ◌/◌, ◌%◌, ◌^◌, ◌<◌, ◌≡◌, refl, sym, ap, ap₂, ◌∙◌, List, [], ◌∷◌,
  ◌++◌, arith, length, length-append, get_or, get_or-append, All,
}
use stdc.Sha256.Context.{initial_state, encode_state}
use stdc.Sha256.Standard.{
  root_loop, root_fraction, standard_constants, standard_initial, rotr, parse_words, write_words,
}
use stdc.Sha256.Transform.{constants, rotate_right, load_words}

abbrev pub IsByte : ℕ → Type 0
IsByte x = x < 2 ^ 8

abbrev pub IsWord : ℕ → Type 0
IsWord x = x < 2 ^ 32

pub constants_lem : constants ≡ standard_constants
unfolding standard_constants root_fraction root_loop
constants_lem = refl

pub initial_lem : initial_state ≡ standard_initial
unfolding standard_initial root_fraction root_loop
initial_lem = refl

-- A rotation, where the shift to the left loses the bits that come in on the right.
pub rotate_right_lem :
    (x n : ℕ)
    → (x * 2 ^ (32 - n)) % 2 ^ 32 ≡ (x % 2 ^ n) * 2 ^ (32 - n)
    → x / 2 ^ n < 2 ^ (32 - n)
    → rotate_right x n ≡ rotr n x
unfolding rotate_right rotr
rotate_right_lem x n e h = ap (bit_or (shr x n)) e ∙ bit_or-low (32 - n) (x % 2 ^ n) (x / 2 ^ n) h

-- Four bytes, most significant first.
big_endian_word :
    (a b c d : ℕ)
    → IsByte a
    → IsByte b
    → IsByte c
    → IsByte d
    → bit_or (bit_or (bit_or (shl32 a 24) (shl32 b 16)) (shl32 c 8)) d
      ≡ ((a * 2 ^ 8 + b) * 2 ^ 8 + c) * 2 ^ 8 + d
big_endian_word a b c d ha hb hc hd =
    let wa : shl32 a 24 ≡ (a * 2 ^ 8) * 2 ^ 16 = omega arith in
    let wb : shl32 b 16 ≡ b * 2 ^ 16 = omega arith in
    let wc : shl32 c 8 ≡ c * 2 ^ 8 = omega arith in
    let la : (a * 2 ^ 8) * 2 ^ 16 ≡ a * 2 ^ 24 = omega arith in
    let one : bit_or (shl32 a 24) (shl32 b 16) ≡ (a * 2 ^ 8 + b) * 2 ^ 16 =
      ap₂ bit_or (wa ∙ la) wb ∙ bit_or-fields 24 a (b * 2 ^ 16) (omega arith) ∙ omega arith in
    let two : bit_or (bit_or (shl32 a 24) (shl32 b 16)) (shl32 c 8)
        ≡ ((a * 2 ^ 8 + b) * 2 ^ 8 + c) * 2 ^ 8 =
      ap₂ bit_or one wc
      ∙ bit_or-fields 16 (a * 2 ^ 8 + b) (c * 2 ^ 8) (omega arith)
      ∙ omega arith in
    ap (λ t. bit_or t d) two ∙ bit_or-fields 8 ((a * 2 ^ 8 + b) * 2 ^ 8 + c) d (omega arith)

-- The loop over the words of a block, behind those that it has loaded.
pub load_words-parse_words :
    (n i : ℕ) (p s : List ℕ)
    → length p ≡ i * 4
    → length s ≡ n * 4
    → All IsByte s
    → load_words n i (p ++ s) ≡ parse_words s
unfolding load_words parse_words
load_words-parse_words zero i p [] e l h = refl
load_words-parse_words zero i p (a ∷ s) e l h = absurd (omega arith)
load_words-parse_words (suc n) i p (a ∷ b ∷ c ∷ d ∷ s) e l (ha, (hb, (hc, (hd, h)))) =
    let tail = a ∷ b ∷ c ∷ d ∷ s in
    let at : (k : ℕ) → get_or (p ++ tail) (i * 4 + k) 0 ≡ get_or tail k 0 =
      λ k. ap (λ t. get_or (p ++ tail) (t + k) 0) (sym e) ∙ get_or-append p tail k 0 in
    let at0 : get_or (p ++ tail) (i * 4) 0 ≡ a =
      let z : i * 4 ≡ i * 4 + 0 = omega arith in ap (λ t. get_or (p ++ tail) t 0) z ∙ at 0 in
    let rest =
      ap (load_words n (i + 1)) (sym (append_assoc p (a ∷ b ∷ c ∷ d ∷ []) s))
      ∙ load_words-parse_words n (i + 1) (p ++ a ∷ b ∷ c ∷ d ∷ []) s
          (omega (arith, length-append p (a ∷ b ∷ c ∷ d ∷ []))) (omega arith) h in
    rw (at0, at 1, at 2, at 3) (ap₂ ◌∷◌ (big_endian_word a b c d ha hb hc hd) rest)
load_words-parse_words (suc n) i p [] e l h = absurd (omega arith)
load_words-parse_words (suc n) i p (a ∷ []) e l h = absurd (omega arith)
load_words-parse_words (suc n) i p (a ∷ b ∷ []) e l h = absurd (omega arith)
load_words-parse_words (suc n) i p (a ∷ b ∷ c ∷ []) e l h = absurd (omega arith)

pub parse_words-IsWord :
    (n : ℕ) (s : List ℕ)
    → length s ≡ n * 4
    → All IsByte s
    → All IsWord (parse_words s) × (length (parse_words s) ≡ n)
unfolding parse_words
parse_words-IsWord zero [] l h = (tt, refl)
parse_words-IsWord zero (a ∷ s) l h = absurd (omega arith)
parse_words-IsWord (suc n) (a ∷ b ∷ c ∷ d ∷ s) l (ha, (hb, (hc, (hd, h)))) =
    let (words, len) = parse_words-IsWord n s (omega arith) h in
    ((omega arith, words), omega (arith, len))
parse_words-IsWord (suc n) [] l h = absurd (omega arith)
parse_words-IsWord (suc n) (a ∷ []) l h = absurd (omega arith)
parse_words-IsWord (suc n) (a ∷ b ∷ []) l h = absurd (omega arith)
parse_words-IsWord (suc n) (a ∷ b ∷ c ∷ []) l h = absurd (omega arith)

pub encode_state-write_words : (words : List ℕ) → encode_state words ≡ write_words words
unfolding encode_state write_words
encode_state-write_words [] = refl
encode_state-write_words (x ∷ words) =
    ap (λ t. u8 (shr x 24) ∷ u8 (shr x 16) ∷ u8 (shr x 8) ∷ u8 x ∷ t)
      (encode_state-write_words words)
