-- ===== src/MemoryPool/Space.antt =====
-- No two parts of the memory of memorypool.c overlap.
use stdc.Prelude.{
  ℕ, ◌+◌, ◌≤◌, ◌<◌, ◌≡◌, ◌≢◌, refl, sym, ap, ◌∙◌, ◌⊎◌, inl, inr, arith, ◌==◌, Bool-cases,
}
use stdc.MemoryPool.Owners.{
  Owner, nobody, chunk, idle, live, large, Owners, mark, mark_self, mark-other, extent,
}

-- No part reaches into another.
unfoldable pub Apart : Owners → Type 0
Apart own = (x y : ℕ) → x < y → own y ≢ nobody → x + extent (own x) ≤ y

-- Nothing is in the bytes from one address up to another.
unfoldable pub Clear : Owners → ℕ → ℕ → Type 0
Clear own from to = (x : ℕ) → (own x ≡ nobody) ⊎ ((x + extent (own x) ≤ from) ⊎ (to ≤ x))

extent-positive : (o : Owner) → (o ≡ nobody) ⊎ (0 < extent o)
unfolding extent
extent-positive nobody = inl refl
extent-positive chunk = inr (omega arith)
extent-positive (idle i) = inr (omega arith)
extent-positive (live i) = inr (omega arith)
extent-positive (large size) = inr (omega arith)

pub Clear-nobody :
    (own : Owners) (from to x : ℕ) → Clear own from to → from ≤ x → x < to → own x ≡ nobody
unfolding Clear
Clear-nobody own from to x c h l = elim (extent-positive (own x)) [
  | inl e ↦ e
  | inr p ↦ elim (c x) [
    | inl e ↦ e
    | inr (inl below) ↦ absurd (omega arith)
    | inr (inr above) ↦ absurd (omega arith)
  ]
]

-- A part at the start of what is clear.
pub Apart-mark :
    (own : Owners) (from to : ℕ) (o : Owner)
    → Clear own from to
    → from + extent o ≤ to
    → Apart own
    → Apart (mark own from o)
unfolding Apart Clear extent
Apart-mark own from to o c h a x y l n = elim (Bool-cases (y == from)) [
  | inl same ↦
      let q : y ≡ from = ground arith in
      let r : x ≢ from = ground arith in
      let e = ap extent (mark-other own from o x r) in
      elim (c x) [
        | inl e' ↦ let z : extent (own x) ≡ 0 = ap extent e' in omega arith
        | inr (inl below) ↦ omega arith
        | inr (inr above) ↦ absurd (omega arith)
      ]
  | inr other ↦
      let q : y ≢ from = ground arith in
      let there : own y ≢ nobody = λ e. n (mark-other own from o y q ∙ e) in
      elim (Bool-cases (x == from)) [
        | inl here ↦
            let r : x ≡ from = ground arith in
            let e : extent (mark own from o x) ≡ extent o =
              ap (λ t. extent (mark own from o t)) r ∙ ap extent (mark_self own from o) in
            elim (c y) [
              | inl e' ↦ absurd (there e')
              | inr (inl below) ↦ absurd (omega arith)
              | inr (inr above) ↦ omega arith
            ]
        | inr elsewhere ↦
            let r : x ≢ from = ground arith in
            omega (arith, a x y l there, ap extent (mark-other own from o x r))
      ]
]

pub Clear-mark :
    (own : Owners) (from to : ℕ) (o : Owner)
    → Clear own from to
    → Clear (mark own from o) (from + extent o) to
unfolding Clear
Clear-mark own from to o c x = elim (Bool-cases (x == from)) [
  | inl same ↦
      let r : x ≡ from = ground arith in
      let e : extent (mark own from o x) ≡ extent o =
        ap (λ t. extent (mark own from o t)) r ∙ ap extent (mark_self own from o) in
      inr (inl (omega arith))
  | inr other ↦
      let r : x ≢ from = ground arith in
      let e = mark-other own from o x r in
      let e' = ap extent e in
      elim (c x) [
        | inl nothing ↦ inl (e ∙ nothing)
        | inr (inl below) ↦ inr (inl (omega arith))
        | inr (inr above) ↦ inr (inr above)
      ]
]

-- A part changes hands.
pub Apart-swap :
    (own : Owners) (a : ℕ) (o : Owner)
    → own a ≢ nobody
    → extent o ≡ extent (own a)
    → Apart own
    → Apart (mark own a o)
unfolding Apart
Apart-swap own a o n e f x y l m =
    let same : (z : ℕ) → extent (mark own a o z) ≡ extent (own z) = λ z.
      elim (Bool-cases (z == a)) [
        | inl here ↦
            let q : z ≡ a = ground arith in
            ap (λ t. extent (mark own a o t)) q
            ∙ (ap extent (mark_self own a o) ∙ e)
            ∙ ap (λ t. extent (own t)) (sym q)
        | inr other ↦ let q : z ≢ a = ground arith in ap extent (mark-other own a o z q)
      ] in
    let there : own y ≢ nobody = λ z. elim (Bool-cases (y == a)) [
      | inl here ↦ let q : y ≡ a = ground arith in n (ap own (sym q) ∙ z)
      | inr other ↦ let q : y ≢ a = ground arith in m (mark-other own a o y q ∙ z)
    ] in
    omega (arith, f x y l there, same x)
