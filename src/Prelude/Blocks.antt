-- ===== src/Prelude/Blocks.antt =====
-- A hash that folds a compression over blocks of 64 bytes, and `memcpy` into a buffer.
use Prim.Native.Nat.{ℕ, zero, suc, ◌+◌, ◌*◌, ◌≤◌}
use mathlib.Core.Path.{◌≡◌, refl, sym, ap, ap₂, ◌∙◌}
use mathlib.Core.List.{List, [], ◌∷◌, ◌++◌, append-nil, append_assoc}
use native.Mathlib.Omega.{arith}
use stdc.Prelude.Lists.{
  length, set, take, drop, length-append, length-drop, take-append_le, drop-append_le, take-all,
  set-end, drop-drop,
}

module _ (f : List ℕ → List ℕ → List ℕ) where
  -- The chain of compressions over `n` blocks.
  unfoldable pub chain : ℕ → List ℕ → List ℕ → List ℕ
  chain zero state bytes = state
  chain (suc n) state bytes = chain n (f state (take 64 bytes)) (drop 64 bytes)

  pub chain-append :
      (n k : ℕ) (state a b : List ℕ)
      → length a ≡ 64 * n
      → chain (n + k) state (a ++ b) ≡ chain k (chain n state a) b
  unfolding chain
  chain-append zero k state [] b h = let e : 0 + k ≡ k = omega arith in rw e
  chain-append zero k state (x ∷ a) b h = absurd (omega arith)
  chain-append (suc n) k state a b h =
      let e : suc n + k ≡ suc (n + k) = omega arith in
      let fits : 64 ≤ length a = omega arith in
      ap (λ t. chain t state (a ++ b)) e
      ∙ ap₂ (λ t d. chain (n + k) (f state t) d) (take-append_le 64 a b fits)
          (drop-append_le 64 a b fits)
      ∙ chain-append n k (f state (take 64 a)) (drop 64 a) b (omega (arith, length-drop 64 a))

  pub chain-one : (state a : List ℕ) → length a ≡ 64 → chain 1 state a ≡ f state a
  unfolding chain
  chain-one state a h = rw (take-all 64 a (omega arith))

  -- What stands behind the blocks is not read.
  pub chain-prefix :
      (n : ℕ) (state a b : List ℕ) → length a ≡ 64 * n → chain n state (a ++ b) ≡ chain n state a
  unfolding chain
  chain-prefix zero state a b h = refl
  chain-prefix (suc n) state a b h =
      let fits : 64 ≤ length a = omega arith in
      ap₂ (λ t d. chain n (f state t) d) (take-append_le 64 a b fits) (drop-append_le 64 a b fits)
      ∙ chain-prefix n (f state (take 64 a)) (drop 64 a) b (omega (arith, length-drop 64 a))

-- `memcpy(&buffer[index], source, length source)`
unfoldable pub copy_into : List ℕ → ℕ → List ℕ → List ℕ
copy_into buffer index [] = buffer
copy_into buffer index (x ∷ source) = copy_into (set buffer index x) (index + 1) source

pub copy_into-append :
    (source p s : List ℕ) (i : ℕ)
    → length p ≡ i
    → length source ≤ length s
    → copy_into (p ++ s) i source ≡ (p ++ source) ++ drop (length source) s
unfolding copy_into
copy_into-append [] p s i h fits = ap (λ t. t ++ s) (sym (append-nil p))
copy_into-append (x ∷ source) p s i h fits =
    let e : 1 + length source ≡ suc (length source) = omega arith in
    ap (λ t. copy_into t (i + 1) source) (set-end p s i x h (omega arith))
    ∙ copy_into-append source (p ++ x ∷ []) (drop 1 s) (i + 1)
        (omega (arith, length-append p (x ∷ []))) (omega (arith, length-drop 1 s))
    ∙ ap₂ ◌++◌ (append_assoc p (x ∷ []) source) (drop-drop 1 (length source) s)
    ∙ ap (λ t. (p ++ x ∷ source) ++ drop t s) e

-- A copy in two pieces.
pub copy_into_twice :
    (xs ys buffer : List ℕ) (i : ℕ)
    → copy_into (copy_into buffer i xs) (i + length xs) ys ≡ copy_into buffer i (xs ++ ys)
unfolding copy_into
copy_into_twice [] ys buffer i =
    let e : i + 0 ≡ i = omega arith in ap (λ t. copy_into buffer t ys) e
copy_into_twice (x ∷ xs) ys buffer i =
    let e : i + suc (length xs) ≡ i + 1 + length xs = omega arith in
    ap (λ t. copy_into (copy_into buffer i (x ∷ xs)) t ys) e ∙ copy_into_twice xs ys _ (i + 1)
