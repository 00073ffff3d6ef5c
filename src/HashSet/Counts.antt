-- ===== src/HashSet/Counts.antt =====
-- The two counters of `Set` in set.c, and what they mean for the loops: every call ends while one
-- slot is empty.
use stdc.HashSet.Element.{Element, get_hash}
use stdc.HashSet.Probe.{Slot, empty, removed, taken, wrap}
use stdc.HashSet.Search.{
  IsCapacity, wrap-lt, walk-reaches, IsFound, find_loop-IsFound, free_loop-empty,
}
use stdc.HashSet.Table.{Set, reinsert, find_slot}
use stdc.Prelude.{
  ℕ, zero, suc, ◌+◌, ◌≤◌, ◌<◌, ◌≡◌, refl, ap, ◌∙◌, none, some, List, [], ◌∷◌, arith, get_or, set,
  length, length-set, replicate,
}

abbrev pub is_used : Slot → ℕ
is_used empty = 0
is_used removed = 1
is_used (taken hash x) = 1

abbrev pub is_live : Slot → ℕ
is_live empty = 0
is_live removed = 0
is_live (taken hash x) = 1

unfoldable pub total : (Slot → ℕ) → List Slot → ℕ
total f [] = 0
total f (slot ∷ buckets) = f slot + total f buckets

pub total-set :
    (f : Slot → ℕ) (buckets : List Slot) (i : ℕ) (slot : Slot)
    → i < length buckets
    → total f (set buckets i slot) + f (get_or buckets i empty) ≡ total f buckets + f slot
unfolding total
total-set f [] i slot h = absurd (omega arith)
total-set f (x ∷ buckets) zero slot h = omega arith
total-set f (x ∷ buckets) (suc i) slot h = omega (arith, total-set f buckets i slot (omega arith))

pub total-replicate : (f : Slot → ℕ) (n : ℕ) → f empty ≡ 0 → total f (replicate n empty) ≡ 0
unfolding total replicate
total-replicate f zero e = refl
total-replicate f (suc n) e = omega (arith, e, total-replicate f n e)

live-le-used : (slot : Slot) → is_live slot ≤ is_used slot
live-le-used empty = omega arith
live-le-used removed = omega arith
live-le-used (taken hash x) = omega arith

pub total-live-le : (buckets : List Slot) → total is_live buckets ≤ total is_used buckets
unfolding total
total-live-le [] = omega arith
total-live-le (slot ∷ buckets) = omega (arith, live-le-used slot, total-live-le buckets)

pub total-used-le : (buckets : List Slot) → total is_used buckets ≤ length buckets
unfolding total
total-used-le [] = omega arith
total-used-le (empty ∷ buckets) = omega (arith, total-used-le buckets)
total-used-le (removed ∷ buckets) = omega (arith, total-used-le buckets)
total-used-le (taken hash x ∷ buckets) = omega (arith, total-used-le buckets)

-- A table that is not full has an empty slot.
empty_slot :
    (buckets : List Slot)
    → total is_used buckets < length buckets
    → (i : ℕ) × (i < length buckets) × (get_or buckets i empty ≡ empty)
unfolding total
empty_slot [] h = absurd (omega arith)
empty_slot (empty ∷ buckets) h = (0, omega arith, refl)
empty_slot (removed ∷ buckets) h =
    let (i, l, e) = empty_slot buckets (omega arith) in (suc i, omega arith, e)
empty_slot (taken hash x ∷ buckets) h =
    let (i, l, e) = empty_slot buckets (omega arith) in (suc i, omega arith, e)

-- The counters are those of the slots.
pub record IsTable (s : Set) : Type 0 where
  pub slots : IsCapacity s.capacity
  pub width : length s.buckets ≡ s.capacity
  pub used : s.used ≡ total is_used s.buckets
  pub count : s.count ≡ total is_live s.buckets

pub find_slot-IsFound :
    (s : Set) (value : Element)
    → IsTable s
    → s.used < s.capacity
    → IsFound s.buckets value s.capacity (find_slot s value)
unfolding find_slot
find_slot-IsFound s value t h =
    let width = t.width in
    let (e, inside, here) = empty_slot s.buckets (omega (arith, t.used)) in
    let from = wrap-lt s.capacity (get_hash value) t.slots in
    let (n, short, reached) =
      walk-reaches s.capacity (wrap s.capacity (get_hash value)) e t.slots from (omega arith) in
    find_loop-IsFound s.capacity s.buckets value s.capacity n (wrap s.capacity (get_hash value))
      none t.slots short from (ap (λ i. get_or s.buckets i empty) reached ∙ here) tt

-- Each value finds a slot of a table with room for all.
pub reinsert-done :
    (capacity : ℕ) (old buckets : List Slot)
    → IsCapacity capacity
    → length buckets ≡ capacity
    → total is_live old + total is_used buckets ≤ capacity
    → total is_live buckets ≡ total is_used buckets
    → (after : List Slot) × (reinsert capacity old buckets ≡ some after)
      × (length after ≡ capacity)
      × (total is_used after ≡ total is_live old + total is_used buckets)
      × (total is_live after ≡ total is_live old + total is_used buckets)
unfolding reinsert total
reinsert-done capacity [] buckets c w h e = (buckets, refl, w, omega arith, omega arith)
reinsert-done capacity (empty ∷ old) buckets c w h e =
    let (after, a, b, d, f) = reinsert-done capacity old buckets c w (omega arith) e in
    (after, a, b, omega arith, omega arith)
reinsert-done capacity (removed ∷ old) buckets c w h e =
    let (after, a, b, d, f) = reinsert-done capacity old buckets c w (omega arith) e in
    (after, a, b, omega arith, omega arith)
reinsert-done capacity (taken hash x ∷ old) buckets c w h e =
    let (i, inside, here) = empty_slot buckets (omega arith) in
    let from = wrap-lt capacity hash c in
    let (n, short, reached) = walk-reaches capacity (wrap capacity hash) i c from (omega arith) in
    let (j, placed, within, blank) =
      free_loop-empty capacity buckets capacity n (wrap capacity hash) c short from
        (ap (λ i. get_or buckets i empty) reached ∙ here) in
    let u = total-set is_used buckets j (taken hash x) (omega arith) in
    let l = total-set is_live buckets j (taken hash x) (omega arith) in
    let u0 : is_used (get_or buckets j empty) ≡ 0 = ap is_used blank in
    let l0 : is_live (get_or buckets j empty) ≡ 0 = ap is_live blank in
    let (after, a, b, d, f) =
      reinsert-done capacity old (set buckets j (taken hash x)) c
        (length-set buckets j (taken hash x) ∙ w) (omega arith) (omega arith) in
    (after, rw (placed, reinsert) a, b, omega arith, omega arith)
