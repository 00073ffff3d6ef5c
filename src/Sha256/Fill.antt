-- ===== src/Sha256/Fill.antt =====
-- The loops of `sha256_final` that fill the block buffer, and the last block of a padded message.
use mathlib.Core.List.{append_assoc}
use stdc.Prelude.Word.{u8, u64, shr}
use stdc.Prelude.{
  ℕ, zero, suc, ◌+◌, ◌-◌, ◌*◌, ◌/◌, ◌%◌, ◌^◌, ◌≤◌, ◌≡◌, refl, ap, ◌∙◌, List, [], ◌∷◌, ◌++◌, arith,
  length, set, drop, replicate, length-append, set-end, set-append,
}
use stdc.Sha256.Context.{initial_state, zero_fill, store_length, encode_state}
use stdc.Sha256.Padding.{compress, compress-append, compress-one, big_endian, pad, standard_digest}
use stdc.Sha256.Transform.{transform}

-- The fill loop writes zeros behind a prefix.
pub zero_fill-append :
    (n i : ℕ) (p s : List ℕ)
    → length p ≡ i
    → n ≤ length s
    → zero_fill n i (p ++ s) ≡ p ++ (replicate n 0 ++ drop n s)
unfolding zero_fill replicate
zero_fill-append zero i p s h fits = refl
zero_fill-append (suc n) i p [] h fits = absurd (omega arith)
zero_fill-append (suc n) i p (y ∷ s) h fits =
    ap (zero_fill n (i + 1)) (set-end p (y ∷ s) i 0 h (omega arith))
    ∙ zero_fill-append n (i + 1) (p ++ 0 ∷ []) s (omega (arith, length-append p (0 ∷ [])))
        (omega arith)
    ∙ append_assoc p (0 ∷ []) (replicate n 0 ++ drop n s)

-- `store_length` on the last eight bytes alone.
store_tail : ℕ → ℕ → ℕ → List ℕ → List ℕ
store_tail zero i bits s = s
store_tail (suc n) i bits s = store_tail n (i + 1) bits (set s (7 - i) (u8 (shr bits (i * 8))))

store_length-append :
    (n i bits : ℕ) (p s : List ℕ)
    → length p ≡ 56
    → n + i ≤ 8
    → store_length n i bits (p ++ s) ≡ p ++ store_tail n i bits s
unfolding store_length store_tail
store_length-append zero i bits p s h fits = refl
store_length-append (suc n) i bits p s h fits =
    let e : 63 - i ≡ 56 + (7 - i) = omega arith in
    let byte = u8 (shr bits (i * 8)) in
    ap (λ t. store_length n (i + 1) bits (set (p ++ s) t byte)) e
    ∙ ap (store_length n (i + 1) bits) (set-append p s 56 (7 - i) byte h)
    ∙ store_length-append n (i + 1) bits p (set s (7 - i) byte) h (omega arith)

store_tail-big_endian :
    (bits : ℕ) (s : List ℕ) → length s ≡ 8 → store_tail 8 0 bits s ≡ big_endian bits
unfolding store_tail
store_tail-big_endian bits (a ∷ b ∷ c ∷ d ∷ e ∷ f ∷ g ∷ h ∷ []) len = refl
store_tail-big_endian bits _ len = absurd (omega arith)

pub store_length-big_endian :
    (bits : ℕ) (p s : List ℕ)
    → length p ≡ 56
    → length s ≡ 8
    → store_length 8 0 bits (p ++ s) ≡ p ++ big_endian bits
store_length-big_endian bits p s h k =
    store_length-append 8 0 bits p s h (omega arith)
    ∙ ap (λ t. p ++ t) (store_tail-big_endian bits s k)

pub replicate-add : (m n : ℕ) (a : ℕ) → replicate (m + n) a ≡ replicate m a ++ replicate n a
unfolding replicate
replicate-add zero n a = let e : 0 + n ≡ n = omega arith in ap (λ t. replicate t a) e
replicate-add (suc m) n a =
    let e : suc m + n ≡ suc (m + n) = omega arith in
    ap (λ t. replicate t a) e ∙ ap (◌∷◌ a) (replicate-add m n a)

big_endian-u64 : (x : ℕ) → big_endian (u64 x) ≡ big_endian x
big_endian-u64 x =
    let top : shr (u64 x) 56 % 2 ^ 8 ≡ shr x 56 % 2 ^ 8 = omega arith in
    let b6 : shr (u64 x) 48 % 2 ^ 8 ≡ shr x 48 % 2 ^ 8 = omega arith in
    let b5 : shr (u64 x) 40 % 2 ^ 8 ≡ shr x 40 % 2 ^ 8 = omega arith in
    let b4 : shr (u64 x) 32 % 2 ^ 8 ≡ shr x 32 % 2 ^ 8 = omega arith in
    let b3 : shr (u64 x) 24 % 2 ^ 8 ≡ shr x 24 % 2 ^ 8 = omega arith in
    let b2 : shr (u64 x) 16 % 2 ^ 8 ≡ shr x 16 % 2 ^ 8 = omega arith in
    let b1 : shr (u64 x) 8 % 2 ^ 8 ≡ shr x 8 % 2 ^ 8 = omega arith in
    let b0 : shr (u64 x) 0 % 2 ^ 8 ≡ shr x 0 % 2 ^ 8 = omega arith in
    cc (top, b6, b5, b4, b3, b2, b1, b0)

-- The length in bits survives the 64-bit counter.
pub big_endian-wrap :
    (b r : ℕ) → big_endian (u64 (u64 (512 * b) + r * 8)) ≡ big_endian (8 * (64 * b + r))
big_endian-wrap b r =
    let total : u64 (u64 (512 * b) + r * 8) ≡ u64 (8 * (64 * b + r)) = omega arith in
    ap big_endian total ∙ big_endian-u64 (8 * (64 * b + r))

pub standard_digest-blocks :
    (n : ℕ) (m done last : List ℕ)
    → pad m ≡ done ++ last
    → length done ≡ 64 * n
    → length last ≡ 64
    → standard_digest m ≡ encode_state (transform (compress n initial_state done) last)
unfolding standard_digest
standard_digest-blocks n m done last padded whole full =
    let blocks : length (done ++ last) / 64 ≡ n + 1 = omega (arith, length-append done last) in
    ap (λ t. encode_state (compress (length t / 64) initial_state t)) padded
    ∙ ap (λ k. encode_state (compress k initial_state (done ++ last))) blocks
    ∙ ap encode_state (
        compress-append n 1 initial_state done last whole
        ∙ compress-one (compress n initial_state done) last full)
