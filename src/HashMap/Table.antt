-- ===== src/HashMap/Table.antt =====
-- `HashMap` of hashmap.h and the functions of hashmap.c that work on the whole table.
-- `malloc`, `calloc` and `strdup` are not under the program's control: each call gets an
-- `Allocator`, the answers to the requests that the call can make, each of which it makes at most
-- once. Freed memory is out of reach of the model's values, so that `free` has no counterpart.
pub mod Buckets
pub mod Rehash
pub mod Refine
pub mod Api
use stdc.HashMap.Capacity.{next_power_base}
use stdc.HashMap.Chain.{Node, Chain, find, assign, unlink}
use stdc.HashMap.Variant.{Variant, string, hash, copy, copy_failed, is_key}
use stdc.Prelude.Word.{u64, bit_and}
use stdc.Prelude.{
  ℕ, ◌+◌, ◌-◌, ◌*◌, ◌/◌, ◌^◌, Bool, true, false, not, ◌&&◌, ◌||◌, Option, none, some, List, [], ◌∷◌,
  leb, ltb, ◌==◌, if◌then◌else◌, length, get_or, set, replicate,
}

pub record HashMap : Type 0 where
  pub seed : ℕ
  pub count : ℕ
  pub bucket : ℕ
  pub table : List Chain

pub record Allocator : Type 0 where
  -- `calloc` of a bucket table
  pub table : Bool
  -- `strdup` of the key and of the value
  pub key : Bool
  pub value : Bool
  -- `malloc` of a node
  pub node : Bool

-- `calloc(n, sizeof(_HashMapNode *))`, which fails if the product is no `size_t`.
unfoldable pub calloc : Bool → ℕ → Option (List Chain)
calloc answer n = if answer && ltb (n * 8) (2 ^ 64) then some (replicate n []) else none

-- `__next_power_base__(HASHMAP_INIT_BUCKETS, 2)`
unfoldable pub init_buckets : ℕ
init_buckets = next_power_base 8 2

-- `malloc` of the struct, `calloc` of its table; the seed mixes the time and the address.
unfoldable pub create : Bool → Bool → ℕ → Option HashMap
create malloc answer seed =
    if malloc
    then (if init_buckets == 0 then none else (elim (calloc answer init_buckets) [
      | none ↦ none
      | some table ↦ some (record { seed = seed; count = 0; bucket = init_buckets; table = table })
    ]))
    else none

-- `hash & (bucket - 1)`
unfoldable pub index : ℕ → ℕ → ℕ
index h bucket = bit_and h (u64 (bucket + (2 ^ 64 - 1)))

-- `dict->table[hash & (dict->bucket - 1)]`
unfoldable pub chain_at : ℕ → ℕ → List Chain → Chain
chain_at h bucket table = get_or table (index h bucket) []

-- `node->next = table[idx]; table[idx] = node;`
unfoldable pub push_front : Node → ℕ → List Chain → List Chain
push_front node bucket table =
    set table (index node.hash bucket) (node ∷ chain_at node.hash bucket table)

-- The two nested loops of `__hashmap_resize__`.
unfoldable pub rehash_chain : ℕ → Chain → List Chain → List Chain
rehash_chain n [] fresh = fresh
rehash_chain n (node ∷ c) fresh = rehash_chain n c (push_front node n fresh)

unfoldable pub rehash : ℕ → List Chain → List Chain → List Chain
rehash n [] fresh = fresh
rehash n (c ∷ table) fresh = rehash n table (rehash_chain n c fresh)

-- The size that `__hashmap_resize__` computes from its argument.
unfoldable pub resize_target : ℕ → ℕ
resize_target n = let p = next_power_base n 2 in if ltb p 8 then init_buckets else p

unfoldable pub resize : Allocator → HashMap → ℕ → Bool × HashMap
resize a dict n =
    let target = resize_target n in
    if target == dict.bucket then (false, dict) else (elim (calloc a.table target) [
      | none ↦ (false, dict)
      | some fresh ↦ (true, record dict { table = rehash target dict.table fresh; bucket = target })
    ])

-- `if (dict->count >= HASHMAP_LOAD_FACTOR * dict->bucket)`, exact below 2 ^ 53 nodes. A failed
-- expansion is only reported.
unfoldable pub expand : Allocator → HashMap → HashMap
expand a dict =
    if leb (3 * dict.bucket) (4 * dict.count)
    then (resize a dict (u64 (2 * dict.bucket))).1
    else dict

-- The part of `__hashmap_add__` behind the search: the key is not in the table.
unfoldable pub add_absent : Allocator → HashMap → ℕ → Variant → Variant → Bool × HashMap
add_absent a dict h key value =
    let dict' = expand a dict in
    let key_copy = copy a.key key in
    let value_copy = copy a.value value in
    if copy_failed key key_copy
    then (false, dict')
    else if copy_failed value value_copy
    then (false, dict')
    else if not a.node
    then (false, dict')
    else (
      true,
      record dict' {
        table =
            push_front (record { hash = h; key = key_copy; value = value_copy }) dict'.bucket
              dict'.table;
        count = u64 (dict'.count + 1);
      },
    )

-- The loop body of `__hashmap_add__` at the node that matches.
unfoldable pub add_present : Allocator → HashMap → ℕ → Variant → Variant → Bool × HashMap
add_present a dict h key value =
    let var = copy a.value value in
    if copy_failed value var then (false, dict) else (
      true,
      record dict {
        table =
            set dict.table (index h dict.bucket)
              (assign key var (chain_at h dict.bucket dict.table));
      },
    )

-- `__hashmap_add__`
unfoldable pub add : Allocator → HashMap → Variant → Variant → Bool × HashMap
add a dict key value =
    if is_key key
    then (let h = hash key dict.seed in
        elim (find key (chain_at h dict.bucket dict.table)) [
          | some old ↦ add_present a dict h key value
          | none ↦ add_absent a dict h key value
        ])
    else (false, dict)

-- `__hashmap_get__`, with the value that the returned pointer points to.
unfoldable pub get : HashMap → Variant → Option Variant
get dict key =
    if dict.count == 0 || not (is_key key)
    then none
    else find key (chain_at (hash key dict.seed) dict.bucket dict.table)

-- `__hashmap_contains__`
unfoldable pub contains : HashMap → Variant → Bool
contains dict key = elim (get dict key) [ none ↦ false | some v ↦ true ]

-- `if (dict->bucket > … && dict->count <= HASHMAP_SHRINK_FACTOR * dict->bucket)`
unfoldable pub shrink : Allocator → HashMap → HashMap
shrink a dict =
    if ltb init_buckets dict.bucket && leb (4 * dict.count) dict.bucket
    then (resize a dict (next_power_base (dict.bucket / 2) 2)).1
    else dict

-- `__hashmap_remove__`
unfoldable pub remove : Allocator → HashMap → Variant → Bool × HashMap
remove a dict key =
    if dict.count == 0 || not (is_key key)
    then (false, dict)
    else (let h = hash key dict.seed in
        let c = chain_at h dict.bucket dict.table in
        elim (find key c) [
          | none ↦ (false, dict)
          | some old ↦ (
            true,
            shrink a (record dict {
              table = set dict.table (index h dict.bucket) (unlink key c);
              count = dict.count - 1;
            }),
          )
        ])

-- `hashmap_clear`
unfoldable pub clear : Bool → HashMap → HashMap
clear answer dict =
    let emptied = record dict { table = replicate (length dict.table) []; count = 0 } in
    if ltb init_buckets dict.bucket
    then (elim (calloc answer init_buckets) [
      | none ↦ emptied
      | some table ↦ record emptied { table = table; bucket = init_buckets }
    ])
    else emptied

-- `strlen(str) + 1` for a string that is there, as `__hashmap_sizeof__` adds for both members.
unfoldable pub string_size : Variant → ℕ
string_size (string (some s)) = length s + 1
string_size x = 0

unfoldable pub sizeof_chain : ℕ → Chain → ℕ
sizeof_chain total [] = total
sizeof_chain total (node ∷ c) =
    sizeof_chain (u64 (u64 (u64 (total + 48) + string_size node.key) + string_size node.value)) c

unfoldable pub sizeof_table : ℕ → List Chain → ℕ
sizeof_table total [] = total
sizeof_table total (c ∷ table) = sizeof_table (sizeof_chain total c) table

-- `__hashmap_sizeof__`: 32 bytes for the struct, 8 for a bucket, 48 for a node.
unfoldable pub sizeof : HashMap → ℕ
sizeof dict = sizeof_table (u64 (32 + u64 (dict.bucket * 8))) dict.table
