-- ===== src/HashSet/Endless.antt =====
-- Where the search of set.c does not end: in a full table.
use stdc.HashSet.Element.{Element, get_hash, element_equal}
use stdc.HashSet.Probe.{Slot, empty, taken, wrap, next_index, first_of, find_loop}
use stdc.HashSet.Search.{IsCapacity, wrap-lt, next_index-lt, Slot-cases}
use stdc.HashSet.Table.{Set}
use stdc.Prelude.{ℕ, zero, suc, ◌<◌, ◌≡◌, ◌≢◌, refl, false, inl, inr, Option, none, List, get_or}

find_loop-none :
    (n capacity : ℕ) (buckets : List Slot) (value : Element) (idx : ℕ) (tombstone : Option ℕ)
    → IsCapacity capacity
    → idx < capacity
    → ((i : ℕ)
        → i < capacity
        → (get_or buckets i empty ≢ empty)
          × ((hash : ℕ) (x : Element)
              → get_or buckets i empty ≡ taken hash x
              → element_equal x value ≡ false))
    → find_loop n capacity buckets value idx tombstone ≡ none
unfolding find_loop
find_loop-none zero capacity buckets value idx tombstone c h f = refl
find_loop-none (suc n) capacity buckets value idx tombstone c h f =
    let next = next_index-lt capacity idx c in
    elim (Slot-cases (get_or buckets idx empty)) [
      | inl blank ↦ absurd ((f idx h).0 blank)
      | inr (inl gone) ↦
          rw (gone, find_loop)
            (find_loop-none n capacity buckets value (next_index capacity idx)
              (first_of tombstone idx) c next f)
      | inr (inr (hash, x, held)) ↦
          rw (held, (f idx h).1 hash x held, find_loop)
            (find_loop-none n capacity buckets value (next_index capacity idx) tombstone c next f)
    ]

-- In a table without an empty slot the loop of `__set_find_slot__` for a value that the table does
-- not hold never ends: it is still under way after any number of rounds.
pub find_loop-endless :
    (n : ℕ) (s : Set) (value : Element)
    → IsCapacity s.capacity
    → ((i : ℕ)
        → i < s.capacity
        → (get_or s.buckets i empty ≢ empty)
          × ((hash : ℕ) (x : Element)
              → get_or s.buckets i empty ≡ taken hash x
              → element_equal x value ≡ false))
    → find_loop n s.capacity s.buckets value (wrap s.capacity (get_hash value)) none ≡ none
find_loop-endless n s value c f =
    find_loop-none n s.capacity s.buckets value (wrap s.capacity (get_hash value)) none c
      (wrap-lt s.capacity (get_hash value) c) f
