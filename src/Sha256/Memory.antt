-- ===== src/Sha256/Memory.antt =====
-- `secure_memequal` and `secure_memzero` of sha256.c.
use stdc.Prelude.Word.{u8, bit_or, bit_xor}
use stdc.Prelude.Bits.{bit_or-eq-zero, bit_xor-eq-zero, bit_xor_self, bit_xor-lt, bit_or-lt}
use stdc.Prelude.{
  ℕ, zero, suc, ◌^◌, ◌≤◌, ◌<◌, ◌≡◌, refl, sym, ap, ap₂, ◌∙◌, ◌↔◌, true, List, [], ◌∷◌, ◌++◌, arith,
  length, take, drop, replicate, All, length-take,
}
use stdc.Sha256.Hash.{difference, secure_memequal, secure_memzero}

difference_self : (a : List ℕ) → difference 0 a a ≡ 0
unfolding difference
difference_self [] = refl
difference_self (x ∷ a) =
    ap (λ t. difference (u8 (bit_or 0 t)) a a) (bit_xor_self x) ∙ difference_self a

difference-zero :
    (acc : ℕ) (a b : List ℕ)
    → acc < 256
    → All (λ x. x < 256) a
    → All (λ x. x < 256) b
    → length a ≡ length b
    → difference acc a b ≡ 0
    → (acc ≡ 0) × (a ≡ b)
unfolding difference
difference-zero acc [] [] h p q e z = (z, refl)
difference-zero acc [] (y ∷ b) h p q e z = absurd (omega arith)
difference-zero acc (x ∷ a) [] h p q e z = absurd (omega arith)
difference-zero acc (x ∷ a) (y ∷ b) h p q e z =
    let small : bit_xor x y < 2 ^ 8 = bit_xor-lt 8 x y p.0 q.0 in
    let grown : bit_or acc (bit_xor x y) < 2 ^ 8 = bit_or-lt 8 acc (bit_xor x y) h small in
    let rest =
      difference-zero (u8 (bit_or acc (bit_xor x y))) a b (omega arith) p.1 q.1 (omega arith) z in
    let parts = bit_or-eq-zero acc (bit_xor x y) (omega (arith, rest.0)) in
    (parts.0, ap₂ ◌∷◌ (bit_xor-eq-zero x y parts.1) rest.1)

All-take : (P : ℕ → Type 0) (n : ℕ) (a : List ℕ) → All P a → All P (take n a)
All-take P zero a p = tt
All-take P (suc n) [] p = tt
All-take P (suc n) (x ∷ a) p = (p.0, All-take P n a p.1)

-- For regions of bytes that are at least `n` long, `secure_memequal` returns 1 exactly if they
-- agree in their first `n` bytes.
pub secure_memequal_iff :
    (left right : List ℕ) (n : ℕ)
    → All (λ x. x < 256) left
    → All (λ x. x < 256) right
    → n ≤ length left
    → n ≤ length right
    → (secure_memequal left right n ≡ true) ↔ (take n left ≡ take n right)
unfolding secure_memequal
secure_memequal_iff left right n p q f g = (
  (λ e.
      (difference-zero 0 (take n left) (take n right) (omega arith) (All-take _ n left p)
        (All-take _ n right q) (length-take n left ∙ omega arith ∙ sym (length-take n right))
        (ground arith)).1),
  (λ e.
      let z : difference 0 (take n left) (take n right) ≡ 0 =
        ap (λ t. difference 0 t (take n right)) e ∙ difference_self (take n right) in
      rw z refl),
)

-- On a region of at least `n` bytes, `secure_memzero` overwrites the first `n` with zeros and
-- leaves those behind.
pub secure_memzero-replicate :
    (bytes : List ℕ) (n : ℕ)
    → n ≤ length bytes
    → secure_memzero bytes n ≡ replicate n 0 ++ drop n bytes
unfolding secure_memzero replicate
secure_memzero-replicate [] zero h = refl
secure_memzero-replicate [] (suc n) h = absurd (omega arith)
secure_memzero-replicate (x ∷ bytes) zero h = refl
secure_memzero-replicate (x ∷ bytes) (suc n) h =
    ap (◌∷◌ 0) (secure_memzero-replicate bytes n (omega arith))
