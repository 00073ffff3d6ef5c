-- ===== src/Tests/HashSets.antt =====
-- The hash set of set.c with a few numbers.
use stdc.HashMap.Variant.{bytes_of}
use stdc.HashSet.Counts.{total, total-replicate, IsTable}
use stdc.HashSet.Element.{Element, int, fnv_1a_loop, hash_fnv_1a, get_hash, element_equal}
use stdc.HashSet.Endless.{find_loop-endless}
use stdc.HashSet.Adds.{put-Models}
use stdc.HashSet.Deletes.{del-Models}
use stdc.HashSet.Model.{Models, changed, contains-Models}
use stdc.HashSet.Moves.{replicate-Placed}
use stdc.HashSet.Held.{matches, copies}
use stdc.HashSet.Placed.{Filled}
use stdc.HashSet.Probe.{empty, taken, wrap, next_index, first_of, or_else, find_loop, free_loop}
use stdc.HashSet.Table.{
  Set, Outcome, done, create, reinsert, rebuild, resize, find_slot, put_slot, put_found, and_then,
  put, shrink, del_slot, del, slot_has, contains,
}
use stdc.Prelude.{
  ℕ, zero, suc, Bool, set, ◌≤◌, ◌<◌, ◌≡◌, ◌≢◌, subst, get_or, refl, true, false, none, some, [],
  ◌∷◌, arith, replicate,
}

program : Unit {0}
unfolding bytes_of fnv_1a_loop hash_fnv_1a get_hash element_equal wrap next_index first_of or_else
    find_loop free_loop create reinsert rebuild resize find_slot put_slot put_found and_then put
    shrink del_slot del slot_has contains replicate total
program = tt

abbrev start : Set
start = record { buckets = replicate 16 empty; capacity = 16; count = 0; used = 0 }

creates : create true true ≡ some start
unfolding program
creates = refl

start-IsTable : IsTable start
unfolding program
start-IsTable = record {
  slots = record { exponent = 4; power = refl; positive = omega arith; small = omega arith };
  width = refl;
  used = refl;
  count = refl;
}

abbrev nothing : Element → Bool
nothing w = false

start-Models : Models nothing start
unfolding Filled program copies
start-Models = record {
  table = start-IsTable;
  placed = replicate-Placed 16 16;
  once = λ w. total-replicate (matches w) 16 refl;
}

put-Models_example :
    (t : Set) × (put true start (int 5) ≡ done t)
    × Models (changed (int 5) true nothing) t
    × (4 ≤ start.capacity → t.used < t.capacity)
put-Models_example = put-Models nothing start (int 5) start-Models (omega arith)

abbrev one : Set
one = record {
  buckets =
      set (replicate 16 empty) (wrap 16 (get_hash (int 5))) (taken (get_hash (int 5)) (int 5));
  capacity = 16;
  count = 1;
  used = 1;
}

puts : put true start (int 5) ≡ done one
unfolding program
puts = refl

one-Models : Models (changed (int 5) true nothing) one
one-Models =
    let (t, returned, m, room) = put-Models nothing start (int 5) start-Models (omega arith) in
    let same : t ≡ one = cc (returned, puts) in subst (Models (changed (int 5) true nothing)) same m

contains-Models_example : contains one (int 5) ≡ done (changed (int 5) true nothing (int 5))
contains-Models_example =
    contains-Models (changed (int 5) true nothing) one (int 5) one-Models (omega arith)

del-Models_example :
    (t : Set) × (del true one (int 5) ≡ done t)
    × Models (changed (int 5) false (changed (int 5) true nothing)) t
    × (t.used < t.capacity)
del-Models_example =
    del-Models true (changed (int 5) true nothing) one (int 5) one-Models (omega arith)

abbrev put_and_del : ℕ → Outcome Set → Outcome Set
put_and_del zero o = o
put_and_del (suc n) o =
    put_and_del n (and_then (and_then o (λ s. put true s (int 1))) (λ s. del true s (int 1)))

-- After four removals from a new set its table has one slot, and one value fills it.
abbrev full : Set
full = record { buckets = taken (get_hash (int 1)) (int 1) ∷ []; capacity = 1; count = 1; used = 1 }

fills : and_then (put_and_del 4 (done start)) (λ s. put true s (int 1)) ≡ done full
unfolding program
fills = refl

other_value :
    (i : ℕ)
    → i < 1
    → (get_or full.buckets i empty ≢ empty)
      × ((hash : ℕ) (x : Element)
          → get_or full.buckets i empty ≡ taken hash x
          → element_equal x (int 2) ≡ false)
unfolding element_equal
other_value zero h = (
  (λ e. absurd (ground arith)),
  λ hash x e.
      let same : int 1 ≡ x = ground arith in subst (λ y. element_equal y (int 2) ≡ false) same refl,
)
other_value (suc i) h = absurd (omega arith)

find_loop-endless_example :
    find_loop 1000 full.capacity full.buckets (int 2) (wrap full.capacity (get_hash (int 2))) none
    ≡ none
unfolding element_equal
find_loop-endless_example =
    find_loop-endless 1000 full (int 2)
      (record { exponent = 0; power = refl; positive = omega arith; small = omega arith })
      other_value
