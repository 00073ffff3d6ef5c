-- ===== src/Tests/HashMaps.antt =====
-- The hash table of hashmap.c on a few keys.
use stdc.HashMap.Capacity.{next_power_base}
use stdc.HashMap.Chain.{find, assign, unlink}
use stdc.HashMap.Table.Buckets.{put}
use stdc.HashMap.Table.Refine.History.{Request, adds, removes, run, replay, run-Models}
use stdc.HashMap.Table.Refine.Reads.{get-Models, create-Models}
use stdc.HashMap.Table.Refine.Removes.{Removed, remove-Removed}
use stdc.HashMap.Table.Refine.Writes.{Added, add-Added, add_succeeds}
use stdc.HashMap.Table.Refine.{Models}
use stdc.HashMap.Table.{
  HashMap, Allocator, calloc, init_buckets, create, index, chain_at, push_front, rehash_chain,
  rehash, resize_target, resize, expand, add_absent, add_present, add, get, contains, shrink,
  remove, clear, sizeof, sizeof_table, sizeof_chain, string_size,
}
use stdc.HashMap.Variant.Laws.{hash-equals}
use stdc.HashMap.Variant.{
  Variant, string, int32, double, hash, equals, copy, copy_failed, is_key, hash_fnv1a,
}
use stdc.Prelude.{
  ◌^◌, ◌≡◌, refl, Bool, true, false, none, some, List, [], ◌∷◌, arith, if◌then◌else◌, replicate,
  ◌-◌, subst,
}

program : Unit {0}
unfolding next_power_base find assign unlink calloc init_buckets create index chain_at push_front
    rehash_chain rehash resize_target resize expand add_absent add_present add get contains shrink
    remove clear sizeof sizeof_table sizeof_chain string_size hash equals copy copy_failed is_key
    replicate
program = tt

-- Every request to the allocator is granted, and none is.
abbrev granting : Allocator
granting = record { table = true; key = true; value = true; node = true }

abbrev refusing : Allocator
refusing = record { table = false; key = false; value = false; node = false }

abbrev seven : Variant
seven = int32 7

abbrev hello : Variant
hello = string (some (b'h' ∷ b'i' ∷ []))

abbrev start : HashMap
start = record { seed = 12345; count = 0; bucket = 8; table = replicate 8 [] }

start_created : create true true 12345 ≡ some start
unfolding program
start_created = refl

start-Models : Models (λ _. none) start
start-Models = (create-Models true true 12345 start start_created).0

fnv1a_of_a : hash_fnv1a (b'a' ∷ []) 0 ≡ 0xaf63dc4c8601ec8c
unfolding hash
fnv1a_of_a = refl

abbrev added : Bool × HashMap
added = add granting start seven hello

add-Added_example : Added (λ _. none) start seven hello added
unfolding program
add-Added_example = add-Added granting seven hello start-Models (omega arith)

added-Models : Models (put (λ _. none) seven (some hello)) added.1
unfolding is_key
added-Models =
    subst (λ b. Models (if b then put (λ _. none) seven (some hello) else (λ _. none)) added.1)
      (add_succeeds granting start seven hello refl refl refl refl) add-Added_example.models

get-Models_example : get added.1 seven ≡ some hello
unfolding program
get-Models_example = get-Models seven added-Models

-- The refused copy of a string leaves the table as it was.
refused : (add refusing start seven hello).0 ≡ false
unfolding program
refused = refl

remove-Removed_example :
    Removed (put (λ _. none) seven (some hello)) added.1 seven (remove granting added.1 seven)
remove-Removed_example = remove-Removed granting seven added-Models

resized : (resize granting added.1 100).1.bucket ≡ 128
unfolding program
resized = refl

abbrev calls : List Request
calls = adds granting seven hello ∷ adds granting hello seven ∷ removes granting seven ∷ []

run-Models_example : Models (replay calls start (λ _. none)) (run calls start)
run-Models_example = run-Models calls (λ _. none) start start-Models (omega arith)

hash-equals_example : hash (double (2 ^ 63)) 5 ≡ hash (double 0) 5
unfolding program
hash-equals_example = hash-equals (double (2 ^ 63)) (double 0) 5 refl

next_power_base_overflows : next_power_base (2 ^ 64 - 1) 2 ≡ 0
unfolding program
next_power_base_overflows = refl
