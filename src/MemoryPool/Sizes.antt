-- ===== src/MemoryPool/Sizes.antt =====
-- Which size of block a request gets.
use stdc.MemoryPool.{class_of}
use stdc.Prelude.{
  ℕ, zero, suc, ◌+◌, ◌-◌, ◌≤◌, ◌<◌, ◌≡◌, inl, inr, Option, none, some, List, [], ◌∷◌, arith, leb,
  Bool-cases, get_or, length, subst,
}

-- The first size in a list that is large enough, or none is.
unfoldable pub IsLeastClass : ℕ → List ℕ → Option ℕ → Type 0
IsLeastClass size sizes none = (j : ℕ) → j < length sizes → get_or sizes j 0 < size
IsLeastClass size sizes (some i) =
    (i < length sizes) × (size ≤ get_or sizes i 0) × ((j : ℕ) → j < i → get_or sizes j 0 < size)

-- The search from index `i` on.
FromIndex : ℕ → List ℕ → ℕ → Option ℕ → Type 0
FromIndex size sizes i none = (j : ℕ) → j < length sizes → get_or sizes j 0 < size
FromIndex size sizes i (some k) =
    (i ≤ k)
    × (k < i + length sizes)
    × (size ≤ get_or sizes (k - i) 0)
    × ((j : ℕ) → j < k - i → get_or sizes j 0 < size)

below-suc :
    (size m : ℕ) (ms : List ℕ) (n : ℕ)
    → m < size
    → ((j : ℕ) → j < n → get_or ms j 0 < size)
    → (j : ℕ) → j < suc n
    → get_or (m ∷ ms) j 0 < size
below-suc size m ms n small f zero h = small
below-suc size m ms n small f (suc j) h = f j (omega arith)

FromIndex-suc :
    (size m : ℕ) (ms : List ℕ) (i : ℕ) (o : Option ℕ)
    → m < size
    → FromIndex size ms (i + 1) o
    → FromIndex size (m ∷ ms) i o
unfolding FromIndex
FromIndex-suc size m ms i none small f = below-suc size m ms (length ms) small f
FromIndex-suc size m ms i (some k) small (a, b, c, d) =
    let e : k - i ≡ suc (k - (i + 1)) = omega arith in
    rw e (omega arith, omega arith, c, below-suc size m ms (k - (i + 1)) small d)

class_of-FromIndex :
    (size : ℕ) (sizes : List ℕ) (i : ℕ) → FromIndex size sizes i (class_of size sizes i)
unfolding class_of FromIndex
class_of-FromIndex size [] i = λ j h. absurd (omega arith)
class_of-FromIndex size (m ∷ ms) i = elim (Bool-cases (leb size m)) [
  | inl fits ↦
      let zero_lem : i - i ≡ 0 = omega arith in
      rw (fits, zero_lem) (omega arith, omega arith, ground arith, λ j h. absurd (omega arith))
  | inr small ↦ rw small (
      FromIndex-suc size m ms i (class_of size ms (i + 1)) (ground arith)
        (class_of-FromIndex size ms (i + 1)))
]

FromIndex-IsLeastClass :
    (size : ℕ) (sizes : List ℕ) (o : Option ℕ)
    → FromIndex size sizes 0 o
    → IsLeastClass size sizes o
unfolding FromIndex IsLeastClass
FromIndex-IsLeastClass size sizes none f = f
FromIndex-IsLeastClass size sizes (some k) (a, b, c, d) =
    let e : k - 0 ≡ k = omega arith in
    (
      omega arith,
      subst (λ t. size ≤ get_or sizes t 0) e c,
      subst (λ t. (j : ℕ) → j < t → get_or sizes j 0 < size) e d,
    )

-- The search of `memorypool_alloc` ends at the first size of a list that holds the request; it
-- finds none only if all are too small.
pub class_of-IsLeastClass :
    (size : ℕ) (sizes : List ℕ) → IsLeastClass size sizes (class_of size sizes 0)
class_of-IsLeastClass size sizes =
    FromIndex-IsLeastClass size sizes (class_of size sizes 0) (class_of-FromIndex size sizes 0)
