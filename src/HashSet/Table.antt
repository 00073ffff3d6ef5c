-- ===== src/HashSet/Table.antt =====
-- `Set` of set.h and the functions of set.c on it. `calloc` and `strdup` are not under the program's
-- control: a call gets the answer of `calloc`, and `strdup` is taken to succeed, which set.c does not
-- test.
use stdc.HashSet.Element.{Element, get_hash, element_equal}
use stdc.HashSet.Probe.{Slot, empty, removed, taken, wrap, find_loop, free_loop}
use stdc.Prelude.Word.{u64}
use stdc.Prelude.{
  ℕ, ◌+◌, ◌-◌, ◌*◌, ◌/◌, ◌^◌, Bool, false, Option, none, some, List, [], ◌∷◌, ltb, leb,
  if◌then◌else◌, get_or, set, replicate,
}

pub record Set : Type 0 where
  pub buckets : List Slot
  pub capacity : ℕ
  pub count : ℕ
  pub used : ℕ

-- How a call ends: with a result, not at all, or in `exit(EXIT_FAILURE)`.
pub data Outcome (A : Type 0) : Type 0 where
  done : A → Outcome A
  loops : Outcome A
  fails : Outcome A

-- `set_create`
unfoldable pub create : Bool → Bool → Option Set
create malloc answer =
    if malloc
    then (if answer
        then some (record { buckets = replicate 16 empty; capacity = 16; count = 0; used = 0 })
        else none)
    else none

-- The loop of `__set_resize__` and `__set_shrink__` over the old slots, into `capacity` new ones.
unfoldable pub reinsert : ℕ → List Slot → List Slot → Option (List Slot)
reinsert capacity [] buckets = some buckets
reinsert capacity (empty ∷ old) buckets = reinsert capacity old buckets
reinsert capacity (removed ∷ old) buckets = reinsert capacity old buckets
reinsert capacity (taken hash x ∷ old) buckets =
    elim (free_loop capacity capacity buckets (wrap capacity hash)) [
      | none ↦ none
      | some idx ↦ reinsert capacity old (set buckets idx (taken hash x))
    ]

-- The set with its values in a table of another size.
unfoldable pub rebuild : Set → ℕ → Outcome Set
rebuild s capacity = elim (reinsert capacity s.buckets (replicate capacity empty)) [
  | none ↦ loops
  | some buckets ↦
      done (record { buckets = buckets; capacity = capacity; count = s.count; used = s.count })
]

-- `__set_resize__`, and what `__set_put__` does if it returns 1. A slot has 16 bytes.
unfoldable pub resize : Bool → Set → Outcome Set
resize answer s =
    let new_capacity = u64 (s.capacity * 2) in
    if answer
    then (if ltb (new_capacity * 16) (2 ^ 64) then rebuild s new_capacity else fails)
    else fails

-- `__set_find_slot__`: after `capacity` rounds the loop has met every slot, and repeats itself.
unfoldable pub find_slot : Set → Element → Option ℕ
find_slot s value =
    find_loop s.capacity s.capacity s.buckets value (wrap s.capacity (get_hash value)) none

-- `__set_put__` behind the test of the load, which is over integers here.
unfoldable pub put_slot : Set → Element → ℕ → Set
put_slot s value idx = elim (get_or s.buckets idx empty) [
  | taken hash x ↦ if element_equal x value then s else record s {
    buckets = set s.buckets idx (taken (get_hash value) value);
    count = u64 (s.count + 1);
  }
  | removed ↦ record s {
    buckets = set s.buckets idx (taken (get_hash value) value);
    count = u64 (s.count + 1);
  }
  | empty ↦ record s {
    buckets = set s.buckets idx (taken (get_hash value) value);
    count = u64 (s.count + 1);
    used = u64 (s.used + 1);
  }
]

unfoldable pub put_found : Set → Element → Outcome Set
put_found s value = elim (find_slot s value) [
  | none ↦ loops
  | some idx ↦ done (put_slot s value idx)
]

unfoldable pub and_then : Outcome Set → (Set → Outcome Set) → Outcome Set
and_then (done s) f = f s
and_then loops f = loops
and_then fails f = fails

-- `__set_put__`
unfoldable pub put : Bool → Set → Element → Outcome Set
put answer s value =
    if leb (3 * s.capacity) (4 * s.used)
    then and_then (resize answer s) (λ grown. put_found grown value)
    else put_found s value

-- `__set_shrink__`; its test for the least capacity is commented out.
unfoldable pub shrink : Bool → Set → Outcome Set
shrink answer s =
    let new_capacity = s.capacity / 2 in
    if leb (3 * new_capacity) (4 * s.count)
    then done s
    else if answer
    then rebuild s new_capacity
    else done s

-- `__set_del__` at the slot that the search returns.
unfoldable pub del_slot : Bool → Set → Element → ℕ → Outcome Set
del_slot answer s value idx = elim (get_or s.buckets idx empty) [
  | empty ↦ done s
  | removed ↦ done s
  | taken hash x ↦
      if element_equal x value
      then (let cut = record s { buckets = set s.buckets idx removed; count = s.count - 1 } in
          if leb (4 * cut.count) cut.capacity then shrink answer cut else done cut)
      else done s
]

unfoldable pub del : Bool → Set → Element → Outcome Set
del answer s value = elim (find_slot s value) [
  | none ↦ loops
  | some idx ↦ del_slot answer s value idx
]

-- `__set_contains__`
unfoldable pub slot_has : Slot → Element → Bool
slot_has (taken hash x) value = element_equal x value
slot_has slot value = false

unfoldable pub contains : Set → Element → Outcome Bool
contains s value = elim (find_slot s value) [
  | none ↦ loops
  | some idx ↦ done (slot_has (get_or s.buckets idx empty) value)
]
