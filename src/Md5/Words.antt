-- ===== src/Md5/Words.antt =====
-- Bytes, words, constants and rotations in md5.c, as RFC 1321 has them.
use mathlib.Core.List.{append_assoc}
use stdc.Prelude.Bits.{bit_or-fields, bit_or-low, bit_and-mask}
use stdc.Prelude.Word.{shr, shl32, bit_and, bit_or}
use stdc.Prelude.{
  ℕ, zero, suc, ◌+◌, ◌-◌, ◌*◌, ◌/◌, ◌%◌, ◌^◌, ◌<◌, ◌≡◌, refl, sym, ap, ap₂, ◌∙◌, List, [], ◌∷◌,
  ◌++◌, arith, length, length-append, get_or, get_or-append, All,
}
use stdc.Md5.Context.{md5_initial_state, md5_encode}
use stdc.Md5.Standard.{
  sine_loop, distance, sine_word, initial_bytes, parse_words, write_words, rotl,
}
use stdc.Md5.Transform.{md5_decode, rotate_left, ff_steps, gg_steps, hh_steps, ii_steps}

abbrev pub IsByte : ℕ → Type 0
IsByte x = x < 2 ^ 8

-- What the operations of a round take: the index of a word, a shift and a constant.
unfoldable pub table : (ℕ → ℕ) → List ℕ → ℕ → ℕ → List (ℕ × (ℕ × ℕ))
table k shifts zero i = []
table k shifts (suc n) i =
    (k i, (get_or shifts (i % 4) 0, sine_word (i + 1))) ∷ table k shifts n (i + 1)

pub ff_steps_lem : ff_steps ≡ table (λ i. i) (7 ∷ 12 ∷ 17 ∷ 22 ∷ []) 16 0
unfolding table sine_word sine_loop distance
ff_steps_lem = refl

pub gg_steps_lem : gg_steps ≡ table (λ i. (5 * i + 1) % 16) (5 ∷ 9 ∷ 14 ∷ 20 ∷ []) 16 16
unfolding table sine_word sine_loop distance
gg_steps_lem = refl

pub hh_steps_lem : hh_steps ≡ table (λ i. (3 * i + 5) % 16) (4 ∷ 11 ∷ 16 ∷ 23 ∷ []) 16 32
unfolding table sine_word sine_loop distance
hh_steps_lem = refl

pub ii_steps_lem : ii_steps ≡ table (λ i. 7 * i % 16) (6 ∷ 10 ∷ 15 ∷ 21 ∷ []) 16 48
unfolding table sine_word sine_loop distance
ii_steps_lem = refl

pub initial_lem : md5_initial_state ≡ parse_words initial_bytes
unfolding parse_words
initial_lem = refl

pub rotate_left_lem :
    (n x : ℕ)
    → (x * 2 ^ n) % 2 ^ 32 ≡ (x % 2 ^ (32 - n)) * 2 ^ n
    → x / 2 ^ (32 - n) < 2 ^ n
    → rotate_left x n ≡ rotl n x
unfolding rotate_left rotl
rotate_left_lem n x e h =
    ap (λ t. bit_or t (shr x (32 - n))) e ∙ bit_or-fields n (x % 2 ^ (32 - n)) (x / 2 ^ (32 - n)) h

-- Four bytes, least significant first.
little_endian_word :
    (a b c d : ℕ)
    → IsByte a
    → IsByte b
    → IsByte c
    → IsByte d
    → bit_or (bit_or (bit_or a (shl32 b 8)) (shl32 c 16)) (shl32 d 24)
      ≡ a + 2 ^ 8 * (b + 2 ^ 8 * (c + 2 ^ 8 * d))
little_endian_word a b c d ha hb hc hd =
    let wb : shl32 b 8 ≡ b * 2 ^ 8 = omega arith in
    let wc : shl32 c 16 ≡ c * 2 ^ 16 = omega arith in
    let wd : shl32 d 24 ≡ d * 2 ^ 24 = omega arith in
    let one : bit_or a (shl32 b 8) ≡ a + b * 2 ^ 8 = ap (bit_or a) wb ∙ bit_or-low 8 b a ha in
    let two : bit_or (bit_or a (shl32 b 8)) (shl32 c 16) ≡ (a + b * 2 ^ 8) + c * 2 ^ 16 =
      ap₂ bit_or one wc ∙ bit_or-low 16 c (a + b * 2 ^ 8) (omega arith) in
    ap₂ bit_or two wd ∙ bit_or-low 24 d ((a + b * 2 ^ 8) + c * 2 ^ 16) (omega arith) ∙ omega arith

-- The loop over the words of a block, behind those that it has loaded.
pub md5_decode-parse_words :
    (n i : ℕ) (p s : List ℕ)
    → length p ≡ i * 4
    → length s ≡ n * 4
    → All IsByte s
    → md5_decode n i (p ++ s) ≡ parse_words s
unfolding md5_decode parse_words
md5_decode-parse_words zero i p [] e l h = refl
md5_decode-parse_words zero i p (a ∷ s) e l h = absurd (omega arith)
md5_decode-parse_words (suc n) i p (a ∷ b ∷ c ∷ d ∷ s) e l (ha, (hb, (hc, (hd, h)))) =
    let tail = a ∷ b ∷ c ∷ d ∷ s in
    let at : (k : ℕ) → get_or (p ++ tail) (i * 4 + k) 0 ≡ get_or tail k 0 =
      λ k. ap (λ t. get_or (p ++ tail) (t + k) 0) (sym e) ∙ get_or-append p tail k 0 in
    let first : i * 4 ≡ i * 4 + 0 = omega arith in
    let at0 : get_or (p ++ tail) (i * 4) 0 ≡ a = ap (λ t. get_or (p ++ tail) t 0) first ∙ at 0 in
    let rest =
      ap (md5_decode n (i + 1)) (sym (append_assoc p (a ∷ b ∷ c ∷ d ∷ []) s))
      ∙ md5_decode-parse_words n (i + 1) (p ++ a ∷ b ∷ c ∷ d ∷ []) s
          (omega (arith, length-append p (a ∷ b ∷ c ∷ d ∷ []))) (omega arith) h in
    rw (at0, at 1, at 2, at 3) (ap₂ ◌∷◌ (little_endian_word a b c d ha hb hc hd) rest)
md5_decode-parse_words (suc n) i p [] e l h = absurd (omega arith)
md5_decode-parse_words (suc n) i p (a ∷ []) e l h = absurd (omega arith)
md5_decode-parse_words (suc n) i p (a ∷ b ∷ []) e l h = absurd (omega arith)
md5_decode-parse_words (suc n) i p (a ∷ b ∷ c ∷ []) e l h = absurd (omega arith)

pub md5_encode-write_words :
    (a b c d : ℕ) → md5_encode 4 0 (a ∷ b ∷ c ∷ d ∷ []) ≡ write_words (a ∷ b ∷ c ∷ d ∷ [])
unfolding md5_encode write_words
md5_encode-write_words a b c d =
    let byte : (x : ℕ) → bit_and x 0xff ≡ x % 2 ^ 8 = λ x. bit_and-mask 8 x in
    let word : (x : ℕ) (s t : List ℕ)
        → s ≡ t
        → bit_and x 0xff
            ∷ bit_and (shr x 8) 0xff
            ∷ bit_and (shr x 16) 0xff
            ∷ bit_and (shr x 24) 0xff
            ∷ s
          ≡ x % 2 ^ 8 ∷ (x / 2 ^ 8) % 2 ^ 8 ∷ (x / 2 ^ 16) % 2 ^ 8 ∷ (x / 2 ^ 24) % 2 ^ 8 ∷ t =
      λ x s t e. cc (byte x, byte (shr x 8), byte (shr x 16), byte (shr x 24), e) in
    word a _ _ (word b _ _ (word c _ _ (word d _ _ refl)))

pub write_words-All : (words : List ℕ) → All IsByte (write_words words)
unfolding write_words
write_words-All [] = tt
write_words-All (x ∷ words) =
    (omega arith, (omega arith, (omega arith, (omega arith, write_words-All words))))
