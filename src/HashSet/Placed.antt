-- ===== src/HashSet/Placed.antt =====
-- Where a value stands in the table of set.c, and what the search makes of it.
use stdc.HashSet.Element.{Element, get_hash, element_equal}
use stdc.HashSet.Probe.{
  Slot, empty, taken, wrap, next_index, first_of, or_else, find_loop, free_loop,
}
use stdc.HashSet.Search.{IsCapacity, walk, next_index-lt, Slot-cases}
use stdc.Prelude.{
  ℕ, zero, suc, ◌+◌, ◌≤◌, ◌<◌, ◌≡◌, ◌≢◌, refl, sym, ap, ◌∙◌, subst, inl, inr, true, Option, none,
  some, List, arith, Bool-cases, get_or, ◌==◌,
}

-- The first `d` slots from `from` on are not empty.
unfoldable pub Filled : ℕ → List Slot → ℕ → ℕ → Type 0
Filled capacity buckets d from =
    (e : ℕ) → e < d → get_or buckets (walk capacity e from) empty ≢ empty

-- A slot that a search for the hash comes to.
pub record Comes (capacity : ℕ) (buckets : List Slot) (hash i : ℕ) : Type 0 where
  pub steps : ℕ
  pub short : steps < capacity
  pub arrives : walk capacity steps (wrap capacity hash) ≡ i
  pub filled : Filled capacity buckets steps (wrap capacity hash)

-- Each value stands where a search for it comes.
pub record Placed (capacity : ℕ) (buckets : List Slot) : Type 0 where
  pub hashed :
      (i hash : ℕ) (x : Element) → get_or buckets i empty ≡ taken hash x → hash ≡ get_hash x
  pub reached :
      (i hash : ℕ) (x : Element)
      → get_or buckets i empty ≡ taken hash x
      → Comes capacity buckets (get_hash x) i

walk-suc :
    (capacity k from : ℕ) → walk capacity (suc k) from ≡ next_index capacity (walk capacity k from)
unfolding walk
walk-suc capacity zero from = refl
walk-suc capacity (suc k) from = walk-suc capacity k (next_index capacity from)

Filled-suc :
    (capacity : ℕ) (buckets : List Slot) (k from : ℕ)
    → Filled capacity buckets k from
    → get_or buckets (walk capacity k from) empty ≢ empty
    → Filled capacity buckets (suc k) from
unfolding Filled
Filled-suc capacity buckets k from f h e l = elim (Bool-cases (e == k)) [
  | inl same ↦
      let q : e ≡ k = ground arith in
      subst (λ t. get_or buckets (walk capacity t from) empty ≢ empty) (sym q) h
  | inr other ↦ f e (ground arith)
]

-- A step onto a slot that is not empty.
Filled-step :
    (capacity : ℕ) (buckets : List Slot) (d from : ℕ)
    → Filled capacity buckets (suc d) from
    → (get_or buckets from empty ≢ empty) × Filled capacity buckets d (next_index capacity from)
unfolding Filled walk
Filled-step capacity buckets d from f = (f 0 (omega arith), λ e l. f (suc e) (omega arith))

-- The search comes upon a value that stands ahead.
unfoldable pub Hits : List Slot → Element → Option ℕ → Type 0
Hits buckets value r =
    (i : ℕ) × ((r ≡ some i)
      × ((hash : ℕ) × ((x : Element) × ((get_or buckets i empty ≡ taken hash x)
              × (element_equal x value ≡ true)))))

pub find_loop-Hits :
    (capacity : ℕ) (buckets : List Slot) (value : Element) (n d from : ℕ) (tombstone : Option ℕ)
    (hash : ℕ) (x : Element)
    → d < n
    → Filled capacity buckets d from
    → get_or buckets (walk capacity d from) empty ≡ taken hash x
    → element_equal x value ≡ true
    → Hits buckets value (find_loop n capacity buckets value from tombstone)
unfolding find_loop walk Hits
find_loop-Hits capacity buckets value zero d from tombstone hash x l f e q = absurd (omega arith)
find_loop-Hits capacity buckets value (suc n) zero from tombstone hash x l f e q =
    rw (e, find_loop, q) (from, (refl, (hash, (x, (e, q)))))
find_loop-Hits capacity buckets value (suc n) (suc d) from tombstone hash x l f e q =
    let (here, rest) = Filled-step capacity buckets d from f in
    elim (Slot-cases (get_or buckets from empty)) [
      | inl blank ↦ absurd (here blank)
      | inr (inl gone) ↦
          rw (gone, find_loop)
            (find_loop-Hits capacity buckets value n d (next_index capacity from)
              (first_of tombstone from) hash x (omega arith) rest e q)
      | inr (inr (hash', y, there)) ↦ elim (Bool-cases (element_equal y value)) [
        | inl same ↦ rw (there, same, find_loop) (from, (refl, (hash', (y, (there, same)))))
        | inr other ↦
            rw (there, other, find_loop)
              (find_loop-Hits capacity buckets value n d (next_index capacity from) tombstone hash x
                (omega arith) rest e q)
      ]
    ]

abbrev pub Remembers : ℕ → List Slot → ℕ → Option ℕ → Type 0
Remembers capacity buckets hash none = Unit
Remembers capacity buckets hash (some t) = Comes capacity buckets hash t

-- The slot that the search returns is one that it comes to.
pub find_loop-Comes :
    (capacity : ℕ) (buckets : List Slot) (value : Element) (hash n k from i : ℕ)
    (tombstone : Option ℕ)
    → from ≡ walk capacity k (wrap capacity hash)
    → k + n ≤ capacity
    → Filled capacity buckets k (wrap capacity hash)
    → Remembers capacity buckets hash tombstone
    → find_loop n capacity buckets value from tombstone ≡ some i
    → Comes capacity buckets hash i
unfolding find_loop
find_loop-Comes capacity buckets value hash zero k from i tombstone a b f t r = absurd (cc r)
find_loop-Comes capacity buckets value hash (suc n) k from i tombstone a b f t r =
    let here : Comes capacity buckets hash from = record {
      steps = k;
      short = omega arith;
      arrives = sym a;
      filled = f;
    } in
    let next : next_index capacity from ≡ walk capacity (suc k) (wrap capacity hash) =
      ap (next_index capacity) a ∙ sym (walk-suc capacity k (wrap capacity hash)) in
    let onward = λ (h : get_or buckets from empty ≢ empty).
      Filled-suc capacity buckets k (wrap capacity hash) f
        (subst (λ j. get_or buckets j empty ≢ empty) a h) in
    elim (Slot-cases (get_or buckets from empty)) [
      | inl blank ↦ ends tombstone t here (rw (blank, find_loop) at r)
      | inr (inl gone) ↦
          find_loop-Comes capacity buckets value hash n (suc k) (next_index capacity from) i
            (first_of tombstone from) next (omega arith) (onward (λ e. cc (e, gone)))
            (remember tombstone t here) (rw (gone, find_loop) at r)
      | inr (inr (hash', y, there)) ↦ elim (Bool-cases (element_equal y value)) [
        | inl same ↦
            let e : from ≡ i = ground (arith, rw (there, same, find_loop) at r) in
            subst (Comes capacity buckets hash) e here
        | inr other ↦
            find_loop-Comes capacity buckets value hash n (suc k) (next_index capacity from) i
              tombstone next (omega arith) (onward (λ e. cc (e, there))) t
              (rw (there, other, find_loop) at r)
      ]
    ]
  where
    ends :
        (t : Option ℕ)
        → Remembers capacity buckets hash t
        → Comes capacity buckets hash from
        → some (or_else t from) ≡ some i
        → Comes capacity buckets hash i
    ends none u here e =
        let q : from ≡ i = unfold or_else in ground (arith, e) in
        subst (Comes capacity buckets hash) q here
    ends (some t) u here e =
        let q : t ≡ i = unfold or_else in ground (arith, e) in
        subst (Comes capacity buckets hash) q u

    remember :
        (t : Option ℕ)
        → Remembers capacity buckets hash t
        → Comes capacity buckets hash from
        → Remembers capacity buckets hash (first_of t from)
    remember none u here = unfold first_of in here
    remember (some t) u here = unfold first_of in u

-- The slot for a value that moves into the table is an empty one that a search for it comes to.
pub free_loop-Comes :
    (capacity : ℕ) (buckets : List Slot) (hash n k from i : ℕ)
    → IsCapacity capacity
    → from < capacity
    → from ≡ walk capacity k (wrap capacity hash)
    → k + n ≤ capacity
    → Filled capacity buckets k (wrap capacity hash)
    → free_loop n capacity buckets from ≡ some i
    → (i < capacity) × ((get_or buckets i empty ≡ empty) × Comes capacity buckets hash i)
unfolding free_loop
free_loop-Comes capacity buckets hash zero k from i c l a b f r = absurd (cc r)
free_loop-Comes capacity buckets hash (suc n) k from i c l a b f r =
    let next : next_index capacity from ≡ walk capacity (suc k) (wrap capacity hash) =
      ap (next_index capacity) a ∙ sym (walk-suc capacity k (wrap capacity hash)) in
    let onward = λ (h : get_or buckets from empty ≢ empty).
      Filled-suc capacity buckets k (wrap capacity hash) f
        (subst (λ j. get_or buckets j empty ≢ empty) a h) in
    elim (Slot-cases (get_or buckets from empty)) [
      | inl blank ↦
          let e : from ≡ i = ground (arith, rw (blank, free_loop) at r) in
          subst
            (λ j.
              (j < capacity) × ((get_or buckets j empty ≡ empty) × Comes capacity buckets hash j))
            e (l, (blank, record { steps = k; short = omega arith; arrives = sym a; filled = f }))
      | inr (inl gone) ↦
          free_loop-Comes capacity buckets hash n (suc k) (next_index capacity from) i c
            (next_index-lt capacity from c) next (omega arith) (onward (λ e. cc (e, gone)))
            (rw (gone, free_loop) at r)
      | inr (inr (hash', y, there)) ↦
          free_loop-Comes capacity buckets hash n (suc k) (next_index capacity from) i c
            (next_index-lt capacity from c) next (omega arith) (onward (λ e. cc (e, there)))
            (rw (there, free_loop) at r)
    ]
