-- ===== src/HashSet/Probe.antt =====
-- The loops of set.c that walk from slot to slot, one index up and back to the start at the end.
-- They have fuel; `none` means that it ran out.
use stdc.HashSet.Element.{Element, element_equal}
use stdc.Prelude.Word.{u64, bit_and}
use stdc.Prelude.{ℕ, zero, suc, ◌+◌, ◌-◌, ◌^◌, Option, none, some, List, if◌then◌else◌, get_or}

-- `_SetSlot`: the hash and the value of a slot that is `SET_SLOT_EMPTY` or `SET_SLOT_REMOVE` are
-- never read.
pub data Slot : Type 0 where
  empty : Slot
  removed : Slot
  taken : ℕ → Element → Slot

-- `idx & (capacity - 1)`
unfoldable pub wrap : ℕ → ℕ → ℕ
wrap capacity idx = bit_and idx (u64 (capacity + (2 ^ 64 - 1)))

-- `idx = (idx + 1) & (set->capacity - 1)`
unfoldable pub next_index : ℕ → ℕ → ℕ
next_index capacity idx = wrap capacity (u64 (idx + 1))

-- The tombstone that the search has met first.
unfoldable pub first_of : Option ℕ → ℕ → Option ℕ
first_of none idx = some idx
first_of (some tombstone) idx = some tombstone

unfoldable pub or_else : Option ℕ → ℕ → ℕ
or_else none idx = idx
or_else (some tombstone) idx = tombstone

-- The loop of `__set_find_slot__`, with the index of the slot in place of its address.
unfoldable pub find_loop : ℕ → ℕ → List Slot → Element → ℕ → Option ℕ → Option ℕ
find_loop zero capacity buckets value idx tombstone = none
find_loop (suc n) capacity buckets value idx tombstone = elim (get_or buckets idx empty) [
  | empty ↦ some (or_else tombstone idx)
  | removed ↦ find_loop n capacity buckets value (next_index capacity idx) (first_of tombstone idx)
  | taken hash x ↦
      if element_equal x value
      then some idx
      else find_loop n capacity buckets value (next_index capacity idx) tombstone
]

-- The inner loop of `__set_resize__` and `__set_shrink__`.
unfoldable pub free_loop : ℕ → ℕ → List Slot → ℕ → Option ℕ
free_loop zero capacity buckets idx = none
free_loop (suc n) capacity buckets idx = elim (get_or buckets idx empty) [
  | empty ↦ some idx
  | removed ↦ free_loop n capacity buckets (next_index capacity idx)
  | taken hash x ↦ free_loop n capacity buckets (next_index capacity idx)
]
