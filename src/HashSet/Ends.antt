-- ===== src/HashSet/Ends.antt =====
-- Which calls of set.c return: to add a value always does, to look one up if the table is not full.
use stdc.HashSet.Counts.{
  is_used, is_live, total-set, total-live-le, total-used-le, IsTable, find_slot-IsFound,
}
use stdc.HashSet.Element.{Element, get_hash, element_equal}
use stdc.HashSet.Probe.{empty, taken}
use stdc.HashSet.Search.{IsCapacity, Slot-cases}
use stdc.HashSet.Table.{
  Set, done, rebuild, resize, put_slot, put_found, and_then, put, slot_has, contains,
}
use stdc.Prelude.Word.{u64}
use stdc.Prelude.{
  ℕ, ◌+◌, ◌*◌, ◌^◌, ◌≤◌, ◌<◌, ◌≡◌, refl, sym, ap, ◌∙◌, subst, Bool, true, inl, inr, arith,
  Bool-cases, ltb, leb, get_or, set, length, length-set,
}
use stdc.HashSet.Rebuild.{rebuild-Returns, double-IsCapacity}

pub put_slot-IsTable :
    (s : Set) (value : Element) (i : ℕ)
    → IsTable s
    → i < s.capacity
    → ((hash : ℕ) (x : Element)
        → get_or s.buckets i empty ≡ taken hash x
        → element_equal x value ≡ true)
    → IsTable (put_slot s value i)
      × ((put_slot s value i).used ≤ s.used + 1)
      × ((put_slot s value i).capacity ≡ s.capacity)
unfolding put_slot
put_slot-IsTable s value i t h fits =
    let slot = taken (get_hash value) value in
    let u = total-set is_used s.buckets i slot (omega (arith, t.width)) in
    let l = total-set is_live s.buckets i slot (omega (arith, t.width)) in
    let small = t.slots.small in
    let live = total-live-le (set s.buckets i slot) in
    let used = total-used-le (set s.buckets i slot) in
    let width : length (set s.buckets i slot) ≡ s.capacity =
      length-set s.buckets i slot ∙ t.width in
    elim (Slot-cases (get_or s.buckets i empty)) [
      | inl blank ↦
          let u0 : is_used (get_or s.buckets i empty) ≡ 0 = ap is_used blank in
          let l0 : is_live (get_or s.buckets i empty) ≡ 0 = ap is_live blank in
          rw (blank, put_slot)
            (
              record {
                slots = t.slots;
                width = width;
                used = omega (arith, t.used);
                count = omega (arith, t.count);
              },
              omega arith,
              refl,
            )
      | inr (inl gone) ↦
          let u0 : is_used (get_or s.buckets i empty) ≡ 1 = ap is_used gone in
          let l0 : is_live (get_or s.buckets i empty) ≡ 0 = ap is_live gone in
          rw (gone, put_slot)
            (
              record {
                slots = t.slots;
                width = width;
                used = omega (arith, t.used);
                count = omega (arith, t.count);
              },
              omega arith,
              refl,
            )
      | inr (inr (hash, x, held)) ↦ rw (held, fits hash x held, put_slot) (t, omega arith, refl)
    ]

pub put_found-Returns :
    (s : Set) (value : Element)
    → IsTable s
    → s.used < s.capacity
    → (t : Set) × (put_found s value ≡ done t)
      × IsTable t
      × (t.used ≤ s.used + 1)
      × (t.capacity ≡ s.capacity)
unfolding put_found
put_found-Returns s value t h =
    let f = find_slot-IsFound s value t h in
    let (table, used, same) = put_slot-IsTable s value f.index t f.inside f.fits in
    (put_slot s value f.index, rw (f.found, put_found) refl, table, used, same)

pub resize_lem : (s : Set) → s.capacity < 2 ^ 59 → resize true s ≡ rebuild s (u64 (s.capacity * 2))
unfolding resize
resize_lem s h =
    let granted : ltb (u64 (s.capacity * 2) * 16) (2 ^ 64) ≡ true = ground arith in rw granted refl

-- On a table whose counters are right, and which has fewer than 2 ^ 59 slots, `__set_put__`
-- returns if `calloc` grants its request, with counters that are right; and a table of four slots
-- or more is not full then.
pub put-done :
    (s : Set) (value : Element)
    → IsTable s
    → s.capacity < 2 ^ 59
    → (t : Set) × (put true s value ≡ done t) × IsTable t × (4 ≤ s.capacity → t.used < t.capacity)
unfolding put
put-done s value t small = elim (Bool-cases (leb (3 * s.capacity) (4 * s.used))) [
  | inr light ↦
      let positive = t.slots.positive in
      let (after, returned, table, used, same) = put_found-Returns s value t (ground arith) in
      rw light (after, returned, table, λ h. ground arith)
  | inl heavy ↦
      let live = total-live-le s.buckets in
      let full = total-used-le s.buckets in
      let positive = t.slots.positive in
      let exact : u64 (s.capacity * 2) ≡ s.capacity * 2 = omega arith in
      let (grown, rebuilt, table, used, twice) =
        rebuild-Returns s (u64 (s.capacity * 2)) t
          (subst IsCapacity (sym exact) (double-IsCapacity s.capacity t.slots (omega arith)))
          (omega (arith, t.count, t.used, t.width)) in
      let (after, returned, table', used', same) =
        put_found-Returns grown value table (omega (arith, t.count, t.width)) in
      (
        after,
        rw heavy (
            ap (λ o. and_then o (λ g. put_found g value)) (resize_lem s small ∙ rebuilt)
            ∙ unfold and_then in returned),
        table',
        λ h. omega (arith, t.count, t.width),
      )
]

-- On a table whose counters are right and which is not full, `__set_contains__` returns.
pub contains-done :
    (s : Set) (value : Element)
    → IsTable s
    → s.used < s.capacity
    → (b : Bool) × (contains s value ≡ done b)
unfolding contains
contains-done s value t h =
    let f = find_slot-IsFound s value t h in
    (slot_has (get_or s.buckets f.index empty) value, rw (f.found, contains) refl)
