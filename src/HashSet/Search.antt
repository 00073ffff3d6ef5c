-- ===== src/HashSet/Search.antt =====
-- Where the loops of set.c end: they meet every slot, so that one empty slot is enough.
use native.Mathlib.Nat.{mod_self, mod-eq_of_lt}
use stdc.HashSet.Element.{Element, element_equal}
use stdc.HashSet.Probe.{
  Slot, empty, removed, taken, wrap, next_index, first_of, or_else, find_loop, free_loop,
}
use stdc.Prelude.Word.{bit_and}
use stdc.Prelude.Bits.{bit_and-mask}
use stdc.Prelude.{
  ℕ, zero, suc, ◌+◌, ◌-◌, ◌%◌, ◌^◌, ◌≤◌, ◌<◌, ◌≡◌, refl, sym, ap, ◌∙◌, true, false, inl, inr,
  Option, none, some, List, arith, Bool-cases, leb, ◌==◌, ◌⊎◌, if◌then◌else◌, get_or,
}

-- The number of slots is a power of two.
pub record IsCapacity (capacity : ℕ) : Type 0 where
  pub exponent : ℕ
  pub power : capacity ≡ 2 ^ exponent
  pub positive : 0 < capacity
  pub small : capacity < 2 ^ 64

pub wrap-mod :
    (capacity idx : ℕ) (c : IsCapacity capacity) → wrap capacity idx ≡ idx % 2 ^ c.exponent
unfolding wrap
wrap-mod capacity idx c =
    let positive = c.positive in
    let small = c.small in
    let mask : (capacity + (2 ^ 64 - 1)) % 2 ^ 64 ≡ 2 ^ c.exponent - 1 =
      omega arith ∙ ap (λ t. t - 1) c.power in
    ap (bit_and idx) mask ∙ bit_and-mask c.exponent idx

pub wrap-lt : (capacity idx : ℕ) → IsCapacity capacity → wrap capacity idx < capacity
wrap-lt capacity idx c =
    let positive = c.positive in let power = c.power in omega (arith, wrap-mod capacity idx c)

next_index_lem :
    (capacity idx : ℕ)
    → IsCapacity capacity
    → idx < capacity
    → next_index capacity idx ≡ (if idx + 1 == capacity then 0 else idx + 1)
unfolding next_index
next_index_lem capacity idx c h =
    let power = c.power in
    let small = c.small in
    let plain : (idx + 1) % 2 ^ 64 ≡ idx + 1 = omega arith in
    ap (wrap capacity) plain
    ∙ wrap-mod capacity (idx + 1) c
    ∙ ap (λ t. (idx + 1) % t) (sym power)
    ∙ elim (Bool-cases (idx + 1 == capacity)) [
      | inl last ↦
          let e : idx + 1 ≡ capacity = ground arith in
          rw last (ap (λ t. t % capacity) e ∙ mod_self capacity)
      | inr inner ↦ rw inner (mod-eq_of_lt (ground arith))
    ]

pub next_index-lt : (capacity idx : ℕ) → IsCapacity capacity → next_index capacity idx < capacity
unfolding next_index
next_index-lt capacity idx c = wrap-lt capacity ((idx + 1) % 2 ^ 64) c

-- `n` steps from a slot.
unfoldable pub walk : ℕ → ℕ → ℕ → ℕ
walk capacity zero idx = idx
walk capacity (suc n) idx = walk capacity n (next_index capacity idx)

walk-up :
    (capacity n idx : ℕ) → IsCapacity capacity → idx + n < capacity → walk capacity n idx ≡ idx + n
unfolding walk
walk-up capacity zero idx c h = omega arith
walk-up capacity (suc n) idx c h =
    let inner : (idx + 1 == capacity) ≡ false = ground arith in
    let step : next_index capacity idx ≡ idx + 1 =
      next_index_lem capacity idx c (omega arith) ∙ rw inner refl in
    ap (walk capacity n) step ∙ walk-up capacity n (idx + 1) c (omega arith) ∙ omega arith

walk-round :
    (capacity n m idx : ℕ)
    → IsCapacity capacity
    → idx + n + 1 ≡ capacity
    → m < capacity
    → walk capacity (n + 1 + m) idx ≡ m
unfolding walk
walk-round capacity zero m idx c e h =
    let last : (idx + 1 == capacity) ≡ true = ground arith in
    let step : next_index capacity idx ≡ 0 =
      next_index_lem capacity idx c (omega arith) ∙ rw last refl in
    let one : 0 + 1 + m ≡ suc m = omega arith in
    ap (λ t. walk capacity t idx) one
    ∙ ap (walk capacity m) step
    ∙ walk-up capacity m 0 c (omega arith)
    ∙ omega arith
walk-round capacity (suc n) m idx c e h =
    let inner : (idx + 1 == capacity) ≡ false = ground arith in
    let step : next_index capacity idx ≡ idx + 1 =
      next_index_lem capacity idx c (omega arith) ∙ rw inner refl in
    let one : suc n + 1 + m ≡ suc (n + 1 + m) = omega arith in
    ap (λ t. walk capacity t idx) one
    ∙ ap (walk capacity (n + 1 + m)) step
    ∙ walk-round capacity n m (idx + 1) c (omega arith) h

-- Less than a whole round leads from each slot to each other.
pub walk-reaches :
    (capacity from to : ℕ)
    → IsCapacity capacity
    → from < capacity
    → to < capacity
    → (n : ℕ) × (n < capacity) × (walk capacity n from ≡ to)
walk-reaches capacity from to c h k = elim (Bool-cases (leb from to)) [
  | inl up ↦
      let below : from ≤ to = ground arith in
      (to - from, omega arith, walk-up capacity (to - from) from c (omega arith) ∙ omega arith)
  | inr down ↦
      let above : to < from = ground arith in
      (
        capacity - 1 - from + 1 + to,
        omega arith,
        walk-round capacity (capacity - 1 - from) to from c (omega arith) k,
      )
]

-- What the search returns: a slot of the table that holds the value, or none.
pub record IsFound (buckets : List Slot) (value : Element) (capacity : ℕ) (result : Option ℕ)
    : Type 0 where
  pub index : ℕ
  pub found : result ≡ some index
  pub inside : index < capacity
  pub fits :
      (hash : ℕ) (x : Element)
      → get_or buckets index empty ≡ taken hash x
      → element_equal x value ≡ true

-- A tombstone that the search remembers.
abbrev pub IsTombstone : List Slot → ℕ → Option ℕ → Type 0
IsTombstone buckets capacity none = Unit
IsTombstone buckets capacity (some t) = (t < capacity) × (get_or buckets t empty ≡ removed)

first_of-IsTombstone :
    (buckets : List Slot) (capacity idx : ℕ) (tombstone : Option ℕ)
    → idx < capacity
    → get_or buckets idx empty ≡ removed
    → IsTombstone buckets capacity tombstone
    → IsTombstone buckets capacity (first_of tombstone idx)
unfolding first_of
first_of-IsTombstone buckets capacity idx none h e t = (h, e)
first_of-IsTombstone buckets capacity idx (some tombstone) h e t = t

or_else-IsFound :
    (buckets : List Slot) (value : Element) (capacity idx : ℕ) (tombstone : Option ℕ)
    → idx < capacity
    → get_or buckets idx empty ≡ empty
    → IsTombstone buckets capacity tombstone
    → IsFound buckets value capacity (some (or_else tombstone idx))
unfolding or_else
or_else-IsFound buckets value capacity idx none h e t = record {
  index = idx;
  found = refl;
  inside = h;
  fits = λ hash x f. absurd (ground arith);
}
or_else-IsFound buckets value capacity idx (some tombstone) h e t =
    let gone = t.1 in
    record {
      index = tombstone;
      found = refl;
      inside = t.0;
      fits = λ hash x f. absurd (ground arith);
    }

pub Slot-cases :
    (slot : Slot)
    → (slot ≡ empty) ⊎ ((slot ≡ removed) ⊎ ((hash : ℕ) × (x : Element) × (slot ≡ taken hash x)))
Slot-cases empty = inl refl
Slot-cases removed = inr (inl refl)
Slot-cases (taken hash x) = inr (inr (hash, x, refl))

-- The search ends if it has an empty slot ahead.
pub find_loop-IsFound :
    (capacity : ℕ) (buckets : List Slot) (value : Element) (n d idx : ℕ) (tombstone : Option ℕ)
    → IsCapacity capacity
    → d < n
    → idx < capacity
    → get_or buckets (walk capacity d idx) empty ≡ empty
    → IsTombstone buckets capacity tombstone
    → IsFound buckets value capacity (find_loop n capacity buckets value idx tombstone)
unfolding find_loop walk
find_loop-IsFound capacity buckets value zero d idx tombstone c l h e t = absurd (omega arith)
find_loop-IsFound capacity buckets value (suc n) zero idx tombstone c l h e t =
    let here : get_or buckets idx empty ≡ empty = e in
    rw (here, find_loop) (or_else-IsFound buckets value capacity idx tombstone h here t)
find_loop-IsFound capacity buckets value (suc n) (suc d) idx tombstone c l h e t =
    elim (Slot-cases (get_or buckets idx empty)) [
      | inl none_here ↦
          rw (none_here, find_loop)
            (or_else-IsFound buckets value capacity idx tombstone h none_here t)
      | inr (inl gone) ↦
          rw (gone, find_loop)
            (find_loop-IsFound capacity buckets value n d (next_index capacity idx)
              (first_of tombstone idx) c (omega arith) (next_index-lt capacity idx c) e
              (first_of-IsTombstone buckets capacity idx tombstone h gone t))
      | inr (inr (hash, x, here)) ↦ elim (Bool-cases (element_equal x value)) [
        | inl same ↦
            rw (here, same, find_loop)
              record { index = idx; found = refl; inside = h; fits = λ hash' x' f. ground arith }
        | inr other ↦
            rw (here, other, find_loop)
              (find_loop-IsFound capacity buckets value n d (next_index capacity idx) tombstone c
                (omega arith) (next_index-lt capacity idx c) e t)
      ]
    ]

-- So does the search for a slot to put a value in.
pub free_loop-empty :
    (capacity : ℕ) (buckets : List Slot) (n d idx : ℕ)
    → IsCapacity capacity
    → d < n
    → idx < capacity
    → get_or buckets (walk capacity d idx) empty ≡ empty
    → (i : ℕ) × (free_loop n capacity buckets idx ≡ some i)
      × (i < capacity)
      × (get_or buckets i empty ≡ empty)
unfolding free_loop walk
free_loop-empty capacity buckets zero d idx c l h e = absurd (omega arith)
free_loop-empty capacity buckets (suc n) zero idx c l h e =
    let here : get_or buckets idx empty ≡ empty = e in (idx, rw (here, free_loop) refl, h, here)
free_loop-empty capacity buckets (suc n) (suc d) idx c l h e =
    elim (Slot-cases (get_or buckets idx empty)) [
      | inl here ↦ (idx, rw (here, free_loop) refl, h, here)
      | inr (inl gone) ↦
          rw (gone, free_loop)
            (free_loop-empty capacity buckets n d (next_index capacity idx) c (omega arith)
              (next_index-lt capacity idx c) e)
      | inr (inr (hash, x, there)) ↦
          rw (there, free_loop)
            (free_loop-empty capacity buckets n d (next_index capacity idx) c (omega arith)
              (next_index-lt capacity idx c) e)
    ]
