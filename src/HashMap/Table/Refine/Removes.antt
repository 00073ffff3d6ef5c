-- ===== src/HashMap/Table/Refine/Removes.antt =====
-- `__hashmap_remove__` against the map of the table.
use stdc.HashMap.Chain.Laws.{find-unlink, count-unlink-le, length-unlink, unlink-IsHashed}
use stdc.HashMap.Chain.{unlink}
use stdc.HashMap.Capacity.{next_power_base}
use stdc.HashMap.Capacity.Power.{next_power_base-IsLeastPower, IsLeastPower-lt}
use stdc.HashMap.Table.Buckets.{put}
use stdc.HashMap.Table.Rehash.{Reading, empty-reads}
use stdc.HashMap.Table.Refine.Reads.{find-chain_at}
use stdc.HashMap.Table.Refine.{Models, IsBuckets, IsBuckets-bounds, resize-Models}
use stdc.HashMap.Table.{HashMap, Allocator, init_buckets, index, chain_at, shrink, remove}
use stdc.HashMap.Variant.{Variant, hash, is_key}
use stdc.Prelude.{
  ℕ, ◌+◌, ◌-◌, ◌*◌, ◌/◌, ◌^◌, ◌<◌, ◌≡◌, ◌∙◌, inl, inr, Bool, true, false, none, some, arith, ltb,
  leb, ◌==◌, not, ◌&&◌, Bool-cases, Option-cases, if◌then◌else◌, set,
}
use stdc.HashMap.Table.Refine.Writes.{is_none, write-Models, searched_placed, resize-count}

half-lt : (n : ℕ) → IsBuckets n → next_power_base (n / 2) 2 < 2 ^ 64
half-lt n b =
    IsLeastPower-lt
      (next_power_base-IsLeastPower (n / 2) 2 (omega arith) (omega (arith, IsBuckets-bounds b)))

shrink-Models :
    {f : Reading} {dict : HashMap} (a : Allocator) → Models f dict → Models f (shrink a dict)
unfolding shrink
shrink-Models {f} {dict} a m =
    elim (Bool-cases (ltb init_buckets dict.bucket && leb (4 * dict.count) dict.bucket)) [
      | inl sparse ↦
          rw sparse (
            resize-Models a (next_power_base (dict.bucket / 2) 2) (half-lt dict.bucket m.buckets) m)
      | inr dense ↦ rw dense m
    ]

shrink-count : (a : Allocator) (dict : HashMap) → (shrink a dict).count ≡ dict.count
unfolding shrink
shrink-count a dict = ground (arith, resize-count a dict (next_power_base (dict.bucket / 2) 2))

-- What a call of `__hashmap_remove__` returns, and the table that it leaves.
pub record Removed (f : Reading) (dict : HashMap) (k : Variant) (r : Bool × HashMap) : Type 0 where
  pub models : Models (if r.0 then put f k none else f) r.1
  pub found : r.0 ≡ (is_key k && not (is_none (f k)))
  pub count : r.1.count + (if r.0 then 1 else 0) ≡ dict.count

-- On a table that represents a map, `__hashmap_remove__` clears the map at all keys equal to the
-- key and returns `True`, if the map had a value there; else it returns `False` and changes
-- nothing.
pub remove-Removed :
    {f : Reading} {dict : HashMap} (a : Allocator) (k : Variant)
    → Models f dict
    → Removed f dict k (remove a dict k)
unfolding remove
remove-Removed {f} {dict} a k m = elim (Bool-cases (is_key k)) [
  | inr improper ↦ elim (Bool-cases (dict.count == 0)) [
    | inl none_in ↦ rw none_in (missing (rw improper))
    | inr some_in ↦ rw (some_in, improper) (missing (rw improper))
  ]
  | inl proper ↦ elim (Bool-cases (dict.count == 0)) [
    | inl none_in ↦
        let zero_count : dict.count ≡ 0 = ground arith in
        let absent = empty-reads dict.seed dict.bucket f dict.table (rw zero_count at m.holds) k in
        rw none_in (missing (rw (absent, proper)))
    | inr some_in ↦
        let found = find-chain_at k m in
        elim (Option-cases (f k)) [
          | inl e ↦ rw (some_in, proper, found ∙ e) (missing (rw (e, proper)))
          | inr (old, e) ↦ rw (some_in, proper, found ∙ e) (present proper old e (ground arith))
        ]
  ]
]
  where
    missing : false ≡ (is_key k && not (is_none (f k))) → Removed f dict k (false, dict)
    missing h = record { models = m; found = h; count = omega arith }

    present :
        is_key k ≡ true
        → (old : Variant) → f k ≡ some old
        → 0 < dict.count
        → Removed f dict k (
          true,
          shrink a (record dict {
            table =
                set dict.table
                  (index (hash k dict.seed) dict.bucket)
                  (unlink k (chain_at (hash k dict.seed) dict.bucket dict.table));
            count = dict.count - 1;
          }),
        )
    present proper old e pos =
        let c = chain_at (hash k dict.seed) dict.bucket dict.table in
        let shorter = length-unlink k c old (find-chain_at k m ∙ e) in
        record {
          models = shrink-Models a (
              write-Models k none (unlink k c) (dict.count - 1) m
                (
                  omega arith,
                  λ q. omega (arith, count-unlink-le k q c),
                  λ q. find-unlink k q c (searched_placed k m q).0,
                )
                (unlink-IsHashed dict.seed k c (searched_placed k m k).1));
          found = rw (proper, e);
          count = rw shrink-count (omega arith);
        }
