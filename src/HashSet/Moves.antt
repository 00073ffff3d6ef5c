-- ===== src/HashSet/Moves.antt =====
-- `__set_resize__` and `__set_shrink__` of set.c move each value to where a search for it comes.
use stdc.HashSet.Counts.{total, total-set, total-replicate}
use stdc.HashSet.Element.{Element, get_hash}
use stdc.HashSet.Held.{matches, copies}
use stdc.HashSet.Placed.{Filled, Comes, Placed, free_loop-Comes}
use stdc.HashSet.Probe.{Slot, empty, removed, taken, wrap, free_loop}
use stdc.HashSet.Search.{IsCapacity, wrap-lt, walk}
use stdc.HashSet.Stays.{Placed-set}
use stdc.HashSet.Table.{Set, done, reinsert, rebuild}
use stdc.Prelude.{
  ℕ, zero, suc, ◌+◌, ◌≡◌, refl, sym, ap, ◌∙◌, subst, ◌⊎◌, inl, inr, Option, none, some, List, [],
  ◌∷◌, arith, get_or, set, length, length-set, replicate, length-replicate,
}

Hashed : List Slot → Type 0
Hashed buckets =
    (i hash : ℕ) (x : Element) → get_or buckets i empty ≡ taken hash x → hash ≡ get_hash x

Option-cases : (o : Option ℕ) → (o ≡ none) ⊎ ((i : ℕ) × (o ≡ some i))
Option-cases none = inl refl
Option-cases (some i) = inr (i, refl)

reinsert-Placed :
    (capacity : ℕ) (old buckets after : List Slot)
    → IsCapacity capacity
    → length buckets ≡ capacity
    → Hashed old
    → Placed capacity buckets
    → reinsert capacity old buckets ≡ some after
    → Placed capacity after × ((w : Element) → copies w after ≡ copies w old + copies w buckets)
unfolding reinsert copies total Hashed
reinsert-Placed capacity [] buckets after c l h p r =
    let same : buckets ≡ after = ground (arith, r) in
    (subst (Placed capacity) same p, λ w. omega (arith, ap (total (matches w)) (sym same)))
reinsert-Placed capacity (empty ∷ old) buckets after c l h p r =
    let (placed, counts) = reinsert-Placed capacity old buckets after c l (λ i. h (suc i)) p r in
    (placed, λ w. omega (arith, counts w))
reinsert-Placed capacity (removed ∷ old) buckets after c l h p r =
    let (placed, counts) = reinsert-Placed capacity old buckets after c l (λ i. h (suc i)) p r in
    (placed, λ w. omega (arith, counts w))
reinsert-Placed capacity (taken hash x ∷ old) buckets after c l h p r =
    elim (Option-cases (free_loop capacity capacity buckets (wrap capacity hash))) [
      | inl nowhere ↦ absurd (cc (rw (nowhere, reinsert) at r))
      | inr (i, there) ↦
          let (b, (blank, comes)) =
            free_loop-Comes capacity buckets hash capacity 0 (wrap capacity hash) i c
              (wrap-lt capacity hash c) (unfold walk in refl) (omega arith)
              (unfold Filled in λ e n. absurd (omega arith)) there in
          let own = h 0 hash x refl in
          let (placed, counts) =
            reinsert-Placed capacity old (set buckets i (taken hash x)) after c
              (length-set buckets i (taken hash x) ∙ l) (λ j. h (suc j))
              (Placed-set capacity buckets i (taken hash x) (omega arith)
                (λ e. absurd (ground (arith, e)))
                (λ hash' x' e.
                  let same : x ≡ x' = ground (arith, e) in
                  let equal : hash ≡ hash' = ground (arith, e) in
                  (
                    sym equal ∙ own ∙ ap get_hash same,
                    subst (λ k. Comes capacity buckets k i) (own ∙ ap get_hash same) comes,
                  ))
                p)
              (rw (there, reinsert) at r) in
          (
            placed,
            λ w.
                let fresh = total-set (matches w) buckets i (taken hash x) (omega arith) in
                let nothing : matches w (get_or buckets i empty) ≡ 0 = ap (matches w) blank in
                omega (arith, counts w),
          )
    ]

replicate-empty : (n i : ℕ) → get_or (replicate n empty) i empty ≡ empty
unfolding replicate
replicate-empty zero i = refl
replicate-empty (suc n) zero = refl
replicate-empty (suc n) (suc i) = replicate-empty n i

pub replicate-Placed : (capacity n : ℕ) → Placed capacity (replicate n empty)
replicate-Placed capacity n = record {
  hashed = λ i hash x e. absurd (cc (replicate-empty n i, e));
  reached = λ i hash x e. absurd (cc (replicate-empty n i, e));
}

-- A table in which each value stands where a search comes, and as often as in another one.
pub record Moved (s t : Set) : Type 0 where
  pub placed : Placed t.capacity t.buckets
  pub kept : (w : Element) → copies w t.buckets ≡ copies w s.buckets

rebuilt_from :
    (s t : Set) (capacity : ℕ)
    → rebuild s capacity ≡ done t
    → (t.capacity ≡ capacity)
      × (reinsert capacity s.buckets (replicate capacity empty) ≡ some t.buckets)
unfolding rebuild
rebuilt_from s t capacity r =
    elim (cases (reinsert capacity s.buckets (replicate capacity empty))) [
      | inl nowhere ↦ absurd (cc (rw (nowhere, rebuild) at r))
      | inr (after, e) ↦
          let same : record {
            buckets = after;
            capacity = capacity;
            count = s.count;
            used = s.count;
          }
              ≡ t =
            cc (rw (e, rebuild) at r) in
          (ap (λ z. z.capacity) (sym same), e ∙ ap (λ z. some z.buckets) same)
    ]
  where
    cases : (o : Option (List Slot)) → (o ≡ none) ⊎ ((b : List Slot) × (o ≡ some b))
    cases none = inl refl
    cases (some b) = inr (b, refl)

pub rebuild-Moved :
    (s t : Set) (capacity : ℕ)
    → IsCapacity capacity
    → Placed s.capacity s.buckets
    → rebuild s capacity ≡ done t
    → Moved s t
unfolding Hashed copies
rebuild-Moved s t capacity c p r =
    let (width, moved) = rebuilt_from s t capacity r in
    let (placed, counts) =
      reinsert-Placed capacity s.buckets (replicate capacity empty) t.buckets c
        (length-replicate capacity empty) p.hashed (replicate-Placed capacity capacity) moved in
    record {
      placed = subst (λ k. Placed k t.buckets) (sym width) placed;
      kept = λ w. omega (arith, counts w, total-replicate (matches w) capacity refl);
    }
