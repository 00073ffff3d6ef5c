-- ===== src/HashSet/Model.antt =====
-- The table of set.c as a set of values.
use stdc.HashSet.Counts.{total-set, IsTable}
use stdc.HashSet.Element.{Element, element_equal}
use stdc.HashSet.Held.{matches, copies, copies-equal, Holds, Holds-copies, Vacant, find_slot-Lands}
use stdc.HashSet.Placed.{Placed}
use stdc.HashSet.Probe.{Slot, empty}
use stdc.HashSet.Table.{Set, done, slot_has, contains}
use stdc.Prelude.{
  ℕ, ◌<◌, ◌≡◌, sym, ap, ◌∙◌, inl, inr, Bool, true, false, arith, Bool-cases, if◌then◌else◌, get_or,
  set,
}

-- The set of values that a table stands for: each value of the set is in one slot, where a search
-- for it comes, and no other value is in a slot.
pub record Models (member : Element → Bool) (s : Set) : Type 0 where
  pub table : IsTable s
  pub placed : Placed s.capacity s.buckets
  pub once : (w : Element) → copies w s.buckets ≡ (if member w then 1 else 0)

-- A set that is changed at one value.
unfoldable pub changed : Element → Bool → (Element → Bool) → Element → Bool
changed value b member w = if element_equal value w then b else member w

pub Holds-member :
    (member : Element → Bool) (s : Set) (value : Element) (i : ℕ)
    → Models member s
    → i < s.capacity
    → Holds s.buckets i value
    → member value ≡ true
Holds-member member s value i m l h = elim (Bool-cases (member value)) [
  | inl present ↦ present
  | inr missing ↦
      let width = m.table.width in
      absurd (
        ground
          (arith, Holds-copies value s.buckets i (omega arith) h, rw missing at (m.once value)))
]

pub absent :
    (member : Element → Bool) (s : Set) (value : Element)
    → Models member s
    → copies value s.buckets ≡ 0
    → member value ≡ false
absent member s value m e = elim (Bool-cases (member value)) [
  | inr missing ↦ missing
  | inl present ↦ absurd (ground (arith, e, rw present at (m.once value)))
]

-- A write to a slot changes the set at one value.
pub once-set :
    (member : Element → Bool) (s : Set) (value : Element) (i : ℕ) (before after : Bool)
    → Models member s
    → i < s.capacity
    → member value ≡ before
    → ((w : Element)
        → matches w (get_or s.buckets i empty)
          ≡ (if element_equal value w then (if before then 1 else 0) else 0))
    → (slot : Slot)
    → ((w : Element)
        → matches w slot ≡ (if element_equal value w then (if after then 1 else 0) else 0))
    → (w : Element)
    → copies w (set s.buckets i slot) ≡ (if changed value after member w then 1 else 0)
unfolding changed copies
once-set member s value i before after m l here old slot new w =
    let width = m.table.width in
    let step = total-set (matches w) s.buckets i slot (omega arith) in
    elim (Bool-cases (element_equal value w)) [
      | inr other ↦
          rw other (omega (arith, step, rw other at (old w), rw other at (new w), m.once w))
      | inl same ↦
          let was : copies w s.buckets ≡ (if before then 1 else 0) =
            sym (copies-equal value w s.buckets same)
            ∙ m.once value
            ∙ ap (λ b. if b then 1 else 0) here in
          rw same (omega (arith, step, rw same at (old w), rw same at (new w), was))
    ]

-- `__set_contains__` on a table that is not full returns, and says whether the value is in the set
-- that the table stands for.
pub contains-Models :
    (member : Element → Bool) (s : Set) (value : Element)
    → Models member s
    → s.used < s.capacity
    → contains s value ≡ done (member value)
unfolding contains Holds Vacant slot_has
contains-Models member s value m room =
    let f = find_slot-Lands s value m.table m.placed room in
    let answer : slot_has (get_or s.buckets f.index empty) value ≡ member value = elim f.ends [
      | inl (hash, (x, (held, same))) ↦
          rw (held, slot_has)
            (same ∙ sym (Holds-member member s value f.index m f.inside (hash, (x, (held, same)))))
      | inr (inl blank, (comes, zero_copies)) ↦
          rw (blank, slot_has) (sym (absent member s value m zero_copies))
      | inr (inr gone, (comes, zero_copies)) ↦
          rw (gone, slot_has) (sym (absent member s value m zero_copies))
    ] in
    rw (f.found, contains) (ap done answer)
