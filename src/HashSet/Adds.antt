-- ===== src/HashSet/Adds.antt =====
-- `__set_put__` of set.c adds a value to the set that the table stands for.
use stdc.HashSet.Counts.{IsTable, total-live-le, total-used-le}
use stdc.HashSet.Element.{Element, get_hash, element_equal}
use stdc.HashSet.Ends.{put_slot-IsTable, resize_lem, put-done}
use stdc.HashSet.Held.{matches, copies, copies-equal, Holds, Vacant, find_slot-Lands}
use stdc.HashSet.Model.{Models, changed, absent, Holds-member, once-set}
use stdc.HashSet.Moves.{Moved, rebuild-Moved}
use stdc.HashSet.Placed.{Comes, Placed}
use stdc.HashSet.Probe.{Slot, empty, taken}
use stdc.HashSet.Rebuild.{rebuild-Returns, double-IsCapacity}
use stdc.HashSet.Search.{IsCapacity}
use stdc.HashSet.Stays.{Placed-set}
use stdc.HashSet.Table.{Set, done, put_slot, put_found, and_then, put, resize}
use stdc.Prelude.Word.{u64}
use stdc.Prelude.{
  ℕ, ◌*◌, ◌^◌, ◌≤◌, ◌<◌, ◌≡◌, refl, sym, ap, ◌∙◌, subst, ◌⊎◌, inl, inr, Bool, true, false, arith,
  Bool-cases, if◌then◌else◌, get_or, set, leb,
}

-- A change at a value to what the set has there already is none.
pub changed_same :
    (member : Element → Bool) (s : Set) (value : Element) (b : Bool)
    → Models member s
    → member value ≡ b
    → Models (changed value b member) s
unfolding changed
changed_same member s value b m e = record {
  table = m.table;
  placed = m.placed;
  once = λ w. elim (Bool-cases (element_equal value w)) [
    | inr other ↦ rw other (m.once w)
    | inl same ↦
        rw same (
          sym (copies-equal value w s.buckets same) ∙ m.once value ∙ ap (λ t. if t then 1 else 0) e)
  ];
}

-- The slot of a value, which goes to a vacant one.
own_slot :
    (s : Set) (value : Element) (i : ℕ)
    → IsTable s
    → i < s.capacity
    → Placed s.capacity s.buckets
    → Comes s.capacity s.buckets (get_hash value) i
    → Placed s.capacity (set s.buckets i (taken (get_hash value) value))
own_slot s value i t l p c =
    let width = t.width in
    Placed-set s.capacity s.buckets i (taken (get_hash value) value) (omega arith)
      (λ e. absurd (ground (arith, e)))
      (λ hash x e.
        let same : value ≡ x = ground (arith, e) in
        let equal : get_hash value ≡ hash = ground (arith, e) in
        (
          sym equal ∙ ap get_hash same,
          subst (λ y. Comes s.capacity s.buckets (get_hash y) i) same c,
        ))
      p

Vacant-matches : (slot : Slot) (w : Element) → Vacant slot → matches w slot ≡ 0
unfolding Vacant
Vacant-matches slot w (inl e) = ap (matches w) e
Vacant-matches slot w (inr e) = ap (matches w) e

once_added :
    (member : Element → Bool) (s : Set) (value : Element) (i : ℕ)
    → Models member s
    → i < s.capacity
    → Vacant (get_or s.buckets i empty)
    → member value ≡ false
    → (w : Element)
    → copies w (set s.buckets i (taken (get_hash value) value))
      ≡ (if changed value true member w then 1 else 0)
once_added member s value i m l free no_value =
    once-set member s value i false true m l no_value
      (λ w.
        Vacant-matches (get_or s.buckets i empty) w free
        ∙ elim (Bool-cases (element_equal value w)) [
          | inl same ↦ rw same refl
          | inr other ↦ rw other refl
        ])
      (taken (get_hash value) value) (λ w. refl)

put_slot-Models :
    (member : Element → Bool) (s : Set) (value : Element) (i : ℕ)
    → Models member s
    → i < s.capacity
    → (Holds s.buckets i value
        ⊎ (Vacant (get_or s.buckets i empty)
            × (Comes s.capacity s.buckets (get_hash value) i × (copies value s.buckets ≡ 0))))
    → Models (changed value true member) (put_slot s value i)
unfolding Holds Vacant put_slot
put_slot-Models member s value i m l (inl (hash, (x, (held, same)))) =
    rw (held, same, put_slot)
      (changed_same member s value true m
        (Holds-member member s value i m l (hash, (x, (held, same)))))
put_slot-Models member s value i m l (inr (inl blank, (comes, zero_copies))) =
    let (table, used, width) =
      put_slot-IsTable s value i m.table l (λ hash x e. absurd (cc (blank, e))) in
    let kept : IsTable (put_slot s value i) = table in
    rw (blank, put_slot)
      record {
        table = rw (blank, put_slot) at kept;
        placed = own_slot s value i m.table l m.placed comes;
        once = once_added member s value i m l (inl blank) (absent member s value m zero_copies);
      }
put_slot-Models member s value i m l (inr (inr gone, (comes, zero_copies))) =
    let (table, used, width) =
      put_slot-IsTable s value i m.table l (λ hash x e. absurd (cc (gone, e))) in
    let kept : IsTable (put_slot s value i) = table in
    rw (gone, put_slot)
      record {
        table = rw (gone, put_slot) at kept;
        placed = own_slot s value i m.table l m.placed comes;
        once = once_added member s value i m l (inr gone) (absent member s value m zero_copies);
      }

put_found-Models :
    (member : Element → Bool) (s : Set) (value : Element)
    → Models member s
    → s.used < s.capacity
    → (t : Set) × (put_found s value ≡ done t) × Models (changed value true member) t
unfolding put_found
put_found-Models member s value m room =
    let f = find_slot-Lands s value m.table m.placed room in
    (
      put_slot s value f.index,
      rw (f.found, put_found) refl,
      put_slot-Models member s value f.index m f.inside f.ends,
    )

-- A table that was made anew stands for the same set.
pub Moved-Models :
    (member : Element → Bool) (s t : Set)
    → Models member s
    → IsTable t
    → Moved s t
    → Models member t
Moved-Models member s t m table moved = record {
  table = table;
  placed = moved.placed;
  once = λ w. moved.kept w ∙ m.once w;
}

grows :
    (member : Element → Bool) (s : Set)
    → Models member s
    → s.capacity < 2 ^ 59
    → (g : Set) × (resize true s ≡ done g) × Models member g × (g.used < g.capacity)
grows member s m small =
    let live = total-live-le s.buckets in
    let full = total-used-le s.buckets in
    let positive = m.table.slots.positive in
    let exact : u64 (s.capacity * 2) ≡ s.capacity * 2 = omega arith in
    let wide =
      subst IsCapacity (sym exact) (double-IsCapacity s.capacity m.table.slots (omega arith)) in
    let (grown, rebuilt, table, used, twice) =
      rebuild-Returns s (u64 (s.capacity * 2)) m.table wide
        (omega (arith, m.table.count, m.table.used, m.table.width)) in
    (
      grown,
      resize_lem s small ∙ rebuilt,
      Moved-Models member s grown m table
          (rebuild-Moved s grown (u64 (s.capacity * 2)) wide m.placed rebuilt),
      omega (arith, m.table.count, m.table.width),
    )

put-stands :
    (member : Element → Bool) (s t : Set) (value : Element)
    → Models member s
    → s.capacity < 2 ^ 59
    → put true s value ≡ done t
    → Models (changed value true member) t
unfolding put and_then
put-stands member s t value m small r = elim (Bool-cases (leb (3 * s.capacity) (4 * s.used))) [
  | inr light ↦
      let positive = m.table.slots.positive in
      let (t', r', m') = put_found-Models member s value m (ground arith) in
      let same : t' ≡ t = cc (r', rw light at r) in
      subst (Models (changed value true member)) same m'
  | inl heavy ↦
      let (grown, resized, model, room) = grows member s m small in
      let (t', r', m') = put_found-Models member grown value model room in
      let step : put_found grown value ≡ done t =
        ap (λ o. and_then o (λ g. put_found g value)) (sym resized) ∙ rw heavy at r in
      let same : t' ≡ t = cc (r', step) in subst (Models (changed value true member)) same m'
]

-- `__set_put__` on a table with fewer than 2 ^ 59 slots returns if `calloc` grants its request, and
-- the table stands for the set with the value, and is not full if it had four slots or more.
pub put-Models :
    (member : Element → Bool) (s : Set) (value : Element)
    → Models member s
    → s.capacity < 2 ^ 59
    → (t : Set) × (put true s value ≡ done t)
      × Models (changed value true member) t
      × (4 ≤ s.capacity → t.used < t.capacity)
put-Models member s value m small =
    let (after, returned, table, room) = put-done s value m.table small in
    (after, returned, put-stands member s after value m small returned, room)
