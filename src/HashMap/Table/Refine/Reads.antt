-- ===== src/HashMap/Table/Refine/Reads.antt =====
-- `__hashmap_get__`, `__hashmap_contains__` and `hashmap_create` against the map of the table.
use stdc.HashMap.Chain.{find}
use stdc.HashMap.Table.Buckets.{home, view}
use stdc.HashMap.Table.Rehash.{Reading, empty-reads, replicate-Holds}
use stdc.HashMap.Table.Refine.{
  Models, IsBuckets, IsBuckets-IsSize, init_buckets_lem, eight-IsBuckets, calloc-some,
}
use stdc.HashMap.Table.{HashMap, calloc, init_buckets, create, chain_at, get, contains, clear}
use stdc.HashMap.Variant.{Variant, hash, is_key}
use stdc.Prelude.{
  ℕ, ◌≡◌, ◌↔◌, refl, inl, inr, Bool, true, none, some, [], arith, ltb, ◌==◌, Bool-cases,
  Option-cases, if◌then◌else◌, length, replicate,
}

-- The chain that the code searches is the home chain.
pub find-chain_at :
    {f : Reading} {dict : HashMap} (k : Variant)
    → Models f dict
    → find k (chain_at (hash k dict.seed) dict.bucket dict.table) ≡ f k
unfolding chain_at
find-chain_at k m = unfold view home in m.holds.reads k

-- On a table that represents a map, `__hashmap_get__` returns the value of the map at a proper
-- key, and nothing at any other.
pub get-Models :
    {f : Reading} {dict : HashMap} (k : Variant)
    → Models f dict
    → get dict k ≡ (if is_key k then f k else none)
unfolding get
get-Models {f} {dict} k m = elim (Bool-cases (dict.count == 0)) [
  | inl none_in ↦
      let zero_count : dict.count ≡ 0 = ground arith in
      let absent = empty-reads dict.seed dict.bucket f dict.table (rw zero_count at m.holds) k in
      ground (arith, absent)
  | inr some_in ↦ ground (arith, find-chain_at k m)
]

-- `__hashmap_contains__` answers whether the map has a value at the key.
pub contains-Models :
    {f : Reading} {dict : HashMap} (k : Variant)
    → Models f dict
    → (contains dict k ≡ true) ↔ ((is_key k ≡ true) × ((v : Variant) × (f k ≡ some v)))
unfolding contains
contains-Models {f} {dict} k m = ground (arith, get-Models k m)

-- An empty table of the initial size.
fresh-Models :
    (dict : HashMap)
    → dict.bucket ≡ init_buckets
    → dict.count ≡ 0
    → dict.table ≡ replicate init_buckets []
    → Models (λ _. none) dict
fresh-Models dict sized empty zeroed =
    let eight : IsBuckets dict.bucket = rw (sized, init_buckets_lem) eight-IsBuckets in
    record {
      buckets = eight;
      holds =
          rw (empty, zeroed, ← sized)
            (replicate-Holds dict.seed dict.bucket (IsBuckets-IsSize eight));
    }

-- A table that `hashmap_create` returns represents the empty map, with a count of 0 and the given
-- seed.
pub create-Models :
    (malloc answer : Bool) (seed : ℕ)
    → (dict : HashMap) → create malloc answer seed ≡ some dict
    → Models (λ _. none) dict × (dict.count ≡ 0) × (dict.seed ≡ seed)
unfolding create
create-Models malloc answer seed dict h =
    let e = made malloc answer h in (fresh-Models dict e.0 e.1 e.2, e.1, e.3)
  where
    made :
        (malloc answer : Bool)
        → create malloc answer seed ≡ some dict
        → (dict.bucket ≡ init_buckets)
          × (dict.count ≡ 0)
          × (dict.table ≡ replicate init_buckets [])
          × (dict.seed ≡ seed)
    made malloc answer h = ground (arith, calloc-some answer init_buckets {table = dict.table})

-- On a table that represents a map, `hashmap_clear` leaves the empty map with a count of 0,
-- whether or not it gets its smaller table.
pub clear-Models :
    {f : Reading} {dict : HashMap} (answer : Bool)
    → Models f dict
    → Models (λ _. none) (clear answer dict) × ((clear answer dict).count ≡ 0)
unfolding clear
clear-Models {f} {dict} answer m = elim (Bool-cases (ltb init_buckets dict.bucket)) [
  | inr small ↦ rw small (emptied, refl)
  | inl large ↦ elim (Option-cases (calloc answer init_buckets)) [
    | inl refused ↦ rw (large, refused) (emptied, refl)
    | inr (table, granted) ↦
        rw (large, granted)
          (
            fresh-Models (record dict { table = table; bucket = init_buckets; count = 0 }) refl refl
                (calloc-some answer init_buckets granted).1,
            refl,
          )
  ]
]
  where
    emptied :
        Models (λ _. none) (record dict { table = replicate (length dict.table) []; count = 0 })
    emptied = record {
      buckets = m.buckets;
      holds = rw m.holds.width (replicate-Holds dict.seed dict.bucket (IsBuckets-IsSize m.buckets));
    }
