-- ===== src/HashSet/Stays.antt =====
-- A write to a slot in set.c leaves each value where a search for it comes.
use stdc.HashSet.Element.{Element, get_hash}
use stdc.HashSet.Probe.{Slot, empty, taken, wrap}
use stdc.HashSet.Search.{walk}
use stdc.Prelude.{
  ℕ, ◌<◌, ◌≡◌, ◌≢◌, sym, ap, ◌∙◌, subst, inl, inr, List, arith, Bool-cases, get_or, set, length,
  get_or-set_self, get_or-set_ne, ◌==◌,
}
use stdc.HashSet.Placed.{Filled, Comes, Placed}

-- What a search comes to stays so when a slot gets something else than `SET_SLOT_EMPTY`.
Filled-set :
    (capacity : ℕ) (buckets : List Slot) (d from i : ℕ) (slot : Slot)
    → i < length buckets
    → slot ≢ empty
    → Filled capacity buckets d from
    → Filled capacity (set buckets i slot) d from
unfolding Filled
Filled-set capacity buckets d from i slot l h f e b =
    elim (Bool-cases (walk capacity e from == i)) [
      | inl same ↦
          let q : walk capacity e from ≡ i = ground arith in
          λ z. h (
            sym (
              ap (λ j. get_or (set buckets i slot) j empty) q
              ∙ get_or-set_self buckets i slot empty l)
            ∙ z)
      | inr other ↦
          let q : i ≢ walk capacity e from = ground arith in
          λ z. f e b (sym (get_or-set_ne buckets i (walk capacity e from) slot empty q) ∙ z)
    ]

Comes-set :
    (capacity : ℕ) (buckets : List Slot) (hash j i : ℕ) (slot : Slot)
    → i < length buckets
    → slot ≢ empty
    → Comes capacity buckets hash j
    → Comes capacity (set buckets i slot) hash j
Comes-set capacity buckets hash j i slot l h c = record {
  steps = c.steps;
  short = c.short;
  arrives = c.arrives;
  filled = Filled-set capacity buckets c.steps (wrap capacity hash) i slot l h c.filled;
}

pub Placed-set :
    (capacity : ℕ) (buckets : List Slot) (i : ℕ) (slot : Slot)
    → i < length buckets
    → slot ≢ empty
    → ((hash : ℕ) (x : Element)
        → slot ≡ taken hash x
        → (hash ≡ get_hash x) × Comes capacity buckets (get_hash x) i)
    → Placed capacity buckets
    → Placed capacity (set buckets i slot)
Placed-set capacity buckets i slot l h own p = record {
  hashed = λ j hash x e. (stands j hash x e).0;
  reached =
      λ j hash x e. Comes-set capacity buckets (get_hash x) j i slot l h (stands j hash x e).1;
}
  where
    stands :
        (j hash : ℕ) (x : Element)
        → get_or (set buckets i slot) j empty ≡ taken hash x
        → (hash ≡ get_hash x) × Comes capacity buckets (get_hash x) j
    stands j hash x e = elim (Bool-cases (j == i)) [
      | inl same ↦
          let q : j ≡ i = ground arith in
          let there : slot ≡ taken hash x =
            sym (get_or-set_self buckets i slot empty l)
            ∙ ap (λ k. get_or (set buckets i slot) k empty) (sym q)
            ∙ e in
          subst (λ k. (hash ≡ get_hash x) × Comes capacity buckets (get_hash x) k) (sym q)
            (own hash x there)
      | inr other ↦
          let q : i ≢ j = ground arith in
          let there = sym (get_or-set_ne buckets i j slot empty q) ∙ e in
          (p.hashed j hash x there, p.reached j hash x there)
    ]
