-- ===== src/HashSet/Removal.antt =====
-- The removal of a value in set.c returns if the table is not full.
use stdc.HashSet.Counts.{is_used, is_live, total-set, IsTable, find_slot-IsFound}
use stdc.HashSet.Element.{Element, element_equal}
use stdc.HashSet.Probe.{empty, removed, taken}
use stdc.HashSet.Search.{Slot-cases}
use stdc.HashSet.Table.{Set, done, shrink, del_slot, del}
use stdc.Prelude.{
  ℕ, ◌-◌, ◌*◌, ◌/◌, ◌<◌, ◌≡◌, refl, ap, ◌∙◌, Bool, inl, inr, arith, Bool-cases, leb, if◌then◌else◌,
  get_or, set, length-set,
}
use stdc.HashSet.Rebuild.{rebuild-Returns, half-IsCapacity}

shrink-Returns :
    (answer : Bool) (s : Set)
    → IsTable s
    → (t : Set) × (shrink answer s ≡ done t)
      × IsTable t
      × (s.used < s.capacity → t.used < t.capacity)
unfolding shrink
shrink-Returns answer s t = elim (Bool-cases (leb (3 * (s.capacity / 2)) (4 * s.count))) [
  | inl dense ↦ (s, rw dense refl, t, λ h. h)
  | inr sparse ↦ elim (Bool-cases answer) [
    | inr refused ↦ (s, rw (sparse, refused) refl, t, λ h. h)
    | inl granted ↦
        let smaller : 4 * s.count < 3 * (s.capacity / 2) = ground arith in
        let (after, rebuilt, table, used, half) =
          rebuild-Returns s (s.capacity / 2) t (half-IsCapacity s.capacity t.slots (omega arith))
            (omega arith) in
        (after, rw (sparse, granted) rebuilt, table, λ h. omega arith)
  ]
]

trim-Returns :
    (answer : Bool) (cut : Set)
    → IsTable cut
    → cut.used < cut.capacity
    → (t : Set) × ((if leb (4 * cut.count) cut.capacity then shrink answer cut else done cut)
        ≡ done t)
      × IsTable t
      × (t.used < t.capacity)
trim-Returns answer cut t h = elim (Bool-cases (leb (4 * cut.count) cut.capacity)) [
  | inr dense ↦ (cut, rw dense refl, t, h)
  | inl sparse ↦
      let (after, returned, table, room) = shrink-Returns answer cut t in
      (after, rw sparse returned, table, room h)
]

pub cut-IsTable :
    (s : Set) (i hash : ℕ) (x : Element)
    → IsTable s
    → i < s.capacity
    → get_or s.buckets i empty ≡ taken hash x
    → IsTable (record s { buckets = set s.buckets i removed; count = s.count - 1 })
cut-IsTable s i hash x t k held =
    let u = total-set is_used s.buckets i removed (omega (arith, t.width)) in
    let l = total-set is_live s.buckets i removed (omega (arith, t.width)) in
    let u1 : is_used (get_or s.buckets i empty) ≡ 1 = ap is_used held in
    let l1 : is_live (get_or s.buckets i empty) ≡ 1 = ap is_live held in
    record {
      slots = t.slots;
      width = length-set s.buckets i removed ∙ t.width;
      used = omega (arith, t.used);
      count = omega (arith, t.count);
    }

del_slot-Returns :
    (answer : Bool) (s : Set) (value : Element) (i : ℕ)
    → IsTable s
    → s.used < s.capacity
    → i < s.capacity
    → (t : Set) × (del_slot answer s value i ≡ done t) × IsTable t × (t.used < t.capacity)
unfolding del_slot
del_slot-Returns answer s value i t h k = elim (Slot-cases (get_or s.buckets i empty)) [
  | inl blank ↦ (s, rw (blank, del_slot) refl, t, h)
  | inr (inl gone) ↦ (s, rw (gone, del_slot) refl, t, h)
  | inr (inr (hash, x, held)) ↦ elim (Bool-cases (element_equal x value)) [
    | inr other ↦ (s, rw (held, other, del_slot) refl, t, h)
    | inl same ↦
        let cut = record s { buckets = set s.buckets i removed; count = s.count - 1 } in
        let table : IsTable cut = cut-IsTable s i hash x t k held in
        let step : del_slot answer s value i
            ≡ (if leb (4 * cut.count) cut.capacity then shrink answer cut else done cut) =
          rw (held, same, del_slot) refl in
        let (after, returned, table', room) = trim-Returns answer cut table h in
        (after, step ∙ returned, table', room)
  ]
]

-- On a table whose counters are right and which is not full, `__set_del__` returns, with counters
-- that are right, and the table is not full afterwards, also where it gets smaller.
pub del-done :
    (answer : Bool) (s : Set) (value : Element)
    → IsTable s
    → s.used < s.capacity
    → (t : Set) × (del answer s value ≡ done t) × IsTable t × (t.used < t.capacity)
unfolding del
del-done answer s value t h =
    let f = find_slot-IsFound s value t h in
    let (after, returned, table, room) = del_slot-Returns answer s value f.index t h f.inside in
    (after, rw (f.found, del) returned, table, room)
