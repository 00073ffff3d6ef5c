-- ===== src/HashSet/Deletes.antt =====
-- `__set_del__` of set.c takes a value out of the set that the table stands for.
use stdc.HashSet.Adds.{changed_same, Moved-Models}
use stdc.HashSet.Counts.{IsTable}
use stdc.HashSet.Element.{Element, get_hash, element_equal}
use stdc.HashSet.Equal.{equal_left}
use stdc.HashSet.Held.{matches, copies, Holds, Vacant, find_slot-Lands}
use stdc.HashSet.Model.{Models, changed, absent, Holds-member, once-set}
use stdc.HashSet.Moves.{rebuild-Moved}
use stdc.HashSet.Placed.{Comes}
use stdc.HashSet.Probe.{empty, removed, taken}
use stdc.HashSet.Rebuild.{half-IsCapacity}
use stdc.HashSet.Removal.{cut-IsTable, del-done}
use stdc.HashSet.Stays.{Placed-set}
use stdc.HashSet.Table.{Set, done, shrink, del_slot, del}
use stdc.Prelude.{
  ℕ, ◌*◌, ◌/◌, ◌-◌, ◌<◌, ◌≡◌, refl, ap, ◌∙◌, subst, ◌⊎◌, inl, inr, Bool, true, false, arith,
  Bool-cases, if◌then◌else◌, get_or, set, leb,
}

shrink-Models :
    (answer : Bool) (member : Element → Bool) (s t : Set)
    → Models member s
    → IsTable t
    → shrink answer s ≡ done t
    → Models member t
unfolding shrink
shrink-Models answer member s t m table r =
    elim (Bool-cases (leb (3 * (s.capacity / 2)) (4 * s.count))) [
      | inl dense ↦ let same : s ≡ t = cc (rw dense at r) in subst (Models member) same m
      | inr sparse ↦ elim (Bool-cases answer) [
        | inr refused ↦
            let same : s ≡ t = cc (rw (sparse, refused) at r) in subst (Models member) same m
        | inl granted ↦
            let smaller : 4 * s.count < 3 * (s.capacity / 2) = ground arith in
            Moved-Models member s t m table (
              rebuild-Moved s t (s.capacity / 2)
                (half-IsCapacity s.capacity m.table.slots (omega arith)) m.placed
                (rw (sparse, granted) at r))
      ]
    ]

trim-Models :
    (answer : Bool) (member : Element → Bool) (s t : Set)
    → Models member s
    → IsTable t
    → (if leb (4 * s.count) s.capacity then shrink answer s else done s) ≡ done t
    → Models member t
trim-Models answer member s t m table r = elim (Bool-cases (leb (4 * s.count) s.capacity)) [
  | inl sparse ↦ shrink-Models answer member s t m table (rw sparse at r)
  | inr dense ↦ let same : s ≡ t = cc (rw dense at r) in subst (Models member) same m
]

-- The set without the value of a slot.
cut-Models :
    (member : Element → Bool) (s : Set) (value : Element) (i hash : ℕ) (x : Element)
    → Models member s
    → i < s.capacity
    → get_or s.buckets i empty ≡ taken hash x
    → element_equal x value ≡ true
    → Models
        (changed value false member)
        (record s { buckets = set s.buckets i removed; count = s.count - 1 })
unfolding Holds
cut-Models member s value i hash x m l held same =
    let width = m.table.width in
    let equal = equal_left x value in
    record {
      table = cut-IsTable s i hash x m.table l held;
      placed =
          Placed-set s.capacity s.buckets i removed (omega arith) (λ e. absurd (cc e))
            (λ hash' x' e. absurd (cc e)) m.placed;
      once =
          once-set member s value i true false m l
            (Holds-member member s value i m l (hash, (x, (held, same))))
            (λ w. ap (matches w) held ∙ ap (λ b. if b then 1 else 0) (equal w same)) removed
            (λ w. elim (Bool-cases (element_equal value w)) [
              | inl alike ↦ rw alike refl
              | inr other ↦ rw other refl
            ]);
    }

del_slot-Models :
    (answer : Bool) (member : Element → Bool) (s t : Set) (value : Element) (i : ℕ)
    → Models member s
    → i < s.capacity
    → (Holds s.buckets i value
        ⊎ (Vacant (get_or s.buckets i empty)
            × (Comes s.capacity s.buckets (get_hash value) i × (copies value s.buckets ≡ 0))))
    → IsTable t
    → del_slot answer s value i ≡ done t
    → Models (changed value false member) t
unfolding Holds Vacant del_slot
del_slot-Models answer member s t value i m l (inl (hash, (x, (held, same)))) table r =
    trim-Models answer (changed value false member)
      (record s { buckets = set s.buckets i removed; count = s.count - 1 }) t
      (cut-Models member s value i hash x m l held same) table (rw (held, same, del_slot) at r)
del_slot-Models answer member s t value i m l (inr (inl blank, (comes, none_there))) table r =
    let same : s ≡ t = cc (rw (blank, del_slot) at r) in
    subst (Models (changed value false member)) same
      (changed_same member s value false m (absent member s value m none_there))
del_slot-Models answer member s t value i m l (inr (inr gone, (comes, none_there))) table r =
    let same : s ≡ t = cc (rw (gone, del_slot) at r) in
    subst (Models (changed value false member)) same
      (changed_same member s value false m (absent member s value m none_there))

-- `__set_del__` on a table that is not full returns, whether or not `calloc` grants the request for
-- a smaller one, and the table, which is not full afterwards, stands for the set without the value.
pub del-Models :
    (answer : Bool) (member : Element → Bool) (s : Set) (value : Element)
    → Models member s
    → s.used < s.capacity
    → (t : Set) × (del answer s value ≡ done t)
      × Models (changed value false member) t
      × (t.used < t.capacity)
unfolding del
del-Models answer member s value m room =
    let (after, returned, table, room') = del-done answer s value m.table room in
    let f = find_slot-Lands s value m.table m.placed room in
    (
      after,
      returned,
      del_slot-Models answer member s after value f.index m f.inside f.ends table
          (rw (f.found, del) at returned),
      room',
    )
