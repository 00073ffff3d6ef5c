-- ===== src/HashMap/Table/Refine/Writes.antt =====
-- `__hashmap_add__` against the map of the table.
use stdc.HashMap.Chain.Laws.{find-assign, count-assign, length-assign, assign-IsHashed}
use stdc.HashMap.Chain.{Chain, count, to_nat, IsHashed, find, assign}
use stdc.HashMap.Table.Buckets.{Holds-ext, home, put, set-Holds, push_front-Holds}
use stdc.HashMap.Table.Rehash.{Reading}
use stdc.HashMap.Table.Refine.Reads.{find-chain_at}
use stdc.HashMap.Table.Refine.{Models, IsBuckets-IsSize, resize-Models}
use stdc.HashMap.Table.{
  HashMap, Allocator, index, chain_at, push_front, resize, expand, add_absent, add_present, add,
}
use stdc.HashMap.Variant.{Variant, equals, string, hash, copy, copy_failed, is_key}
use stdc.Prelude.Word.{u64}
use stdc.Prelude.{
  ℕ, ◌+◌, ◌*◌, ◌^◌, ◌≤◌, ◌<◌, max, ◌≡◌, refl, sym, ap, ◌∙◌, inl, inr, Bool, true, false, Option,
  none, some, arith, leb, ◌&&◌, Bool-cases, Option-cases, if◌then◌else◌, length, set,
}

-- A copy that did not fail is the value itself.
copy-eq : (answer : Bool) (v : Variant) → copy_failed v (copy answer v) ≡ false → copy answer v ≡ v
unfolding copy copy_failed
copy-eq true (string (some s)) h = refl
copy-eq false (string (some s)) h = cc
copy-eq answer (string none) h = refl
copy-eq answer _ h = refl

-- A copy that the allocator grants does not fail.
copy-granted : (v : Variant) → copy_failed v (copy true v) ≡ false
unfolding copy copy_failed
copy-granted (string (some s)) = refl
copy-granted (string none) = refl
copy-granted _ = refl

expand-Models :
    {f : Reading} {dict : HashMap} (a : Allocator) → Models f dict → Models f (expand a dict)
unfolding expand
expand-Models {f} {dict} a m = elim (Bool-cases (leb (3 * dict.bucket) (4 * dict.count))) [
  | inl full ↦ rw full (resize-Models a (u64 (2 * dict.bucket)) (omega arith) m)
  | inr roomy ↦ rw roomy m
]

-- The fields that `resize` leaves alone.
pub resize-count :
    (a : Allocator) (dict : HashMap) (n : ℕ)
    → ((resize a dict n).1.count ≡ dict.count) × ((resize a dict n).1.seed ≡ dict.seed)
unfolding resize
resize-count a dict n = ground arith

expand-count :
    (a : Allocator) (dict : HashMap)
    → ((expand a dict).count ≡ dict.count) × ((expand a dict).seed ≡ dict.seed)
unfolding expand
expand-count a dict = ground (arith, resize-count a dict (u64 (2 * dict.bucket)))

abbrev pub is_none : Option Variant → Bool
is_none none = true
is_none (some v) = false

-- What a call of `__hashmap_add__` returns, and the table that it leaves: with `True` the map has
-- the value at the key, and the count grows by a new key; with `False` nothing has changed.
pub record Added (f : Reading) (dict : HashMap) (k v : Variant) (r : Bool × HashMap) : Type 0 where
  pub models : Models (if r.0 then put f k (some v) else f) r.1
  pub count : r.1.count ≡ (if r.0 && is_none (f k) then dict.count + 1 else dict.count)

-- A new chain for one key, as `add` and `remove` write it.
pub write-Models :
    {f : Reading} {dict : HashMap} (k : Variant) (v : Option Variant) (c : Chain) (total : ℕ)
    → Models f dict
    → (let old = chain_at (hash k dict.seed) dict.bucket dict.table in
        (total + length old ≡ dict.count + length c)
        × ((q : Variant) → count q c ≤ max (to_nat (equals k q)) (count q old))
        × ((q : Variant) → find q c ≡ (if equals k q then v else find q old)))
    → IsHashed dict.seed c
    → Models (put f k v) (record dict {
      table = set dict.table (index (hash k dict.seed) dict.bucket) c;
      count = total;
    })
unfolding chain_at home
write-Models {f} {dict} k v c total m (sizes, few, reads) hashed = record {
  buckets = m.buckets;
  holds =
      Holds-ext
        (set-Holds dict.seed dict.bucket dict.table (IsBuckets-IsSize m.buckets) m.holds.width
          m.holds.placed k v c total (omega arith, few, reads) hashed)
        refl (λ q. ap (λ x. if equals k q then v else x) (m.holds.reads q));
}

-- What the code finds in the chain that it searches.
module _ {f : Reading} {dict : HashMap} (k : Variant) (m : Models f dict) where
  abbrev pub searched : Chain
  searched = chain_at (hash k dict.seed) dict.bucket dict.table

  pub searched_placed : (q : Variant) → (count q searched ≤ 1) × IsHashed dict.seed searched
  unfolding chain_at home
  searched_placed q = let p = m.holds.placed q (home dict.seed dict.bucket k) in (p.0, p.2)

add_present-Added :
    {f : Reading} {dict : HashMap} (a : Allocator) (k v old : Variant)
    → Models f dict
    → f k ≡ some old
    → Added f dict k v (add_present a dict (hash k dict.seed) k v)
unfolding add_present
add_present-Added {f} {dict} a k v old m e = elim (Bool-cases (copy_failed v (copy a.value v))) [
  | inl failed ↦ rw failed (record { models = m; count = ground arith })
  | inr copied ↦
      rw (copied, copy-eq a.value v copied)
        (let c = chain_at (hash k dict.seed) dict.bucket dict.table in
          record {
            models =
                write-Models k (some v) (assign k v c) dict.count m
                  (
                    rw (length-assign k v c) refl,
                    λ q. rw (count-assign k q v c) (omega arith),
                    λ q. find-assign k q v c old (find-chain_at k m ∙ e),
                  )
                  (assign-IsHashed dict.seed k v c (searched_placed k m k).1);
            count = ground arith;
          })
]

add_absent-Added :
    {f : Reading} {dict : HashMap} (a : Allocator) (k v : Variant)
    → Models f dict
    → dict.count + 1 < 2 ^ 64
    → is_key k ≡ true
    → f k ≡ none
    → Added f dict k v (add_absent a dict (hash k dict.seed) k v)
unfolding add_absent
add_absent-Added {f} {dict} a k v m room proper e =
    elim (Bool-cases (copy_failed k (copy a.key k))) [
      | inl failed ↦ rw failed unchanged
      | inr k_copied ↦ elim (Bool-cases (copy_failed v (copy a.value v))) [
        | inl failed ↦ rw (k_copied, failed) unchanged
        | inr v_copied ↦ elim (Bool-cases a.node) [
          | inr failed ↦ rw (k_copied, v_copied) (simp failed unchanged)
          | inl granted ↦
              rw (k_copied, v_copied, copy-eq a.key k k_copied, copy-eq a.value v v_copied)
                (simp granted
                  (linked (expand a dict) m' (expand-count a dict).0 (expand-count a dict).1))
        ]
      ]
    ]
  where
    m' : Models f (expand a dict)
    m' = expand-Models a m

    linked :
        (d : HashMap)
        → Models f d
        → d.count ≡ dict.count
        → d.seed ≡ dict.seed
        → Added f dict k v (
          true,
          record d {
            count = u64 (d.count + 1);
            table =
                push_front
                  (record { hash = hash k dict.seed; key = k; value = v })
                  d.bucket
                  d.table;
          },
        )
    linked d md counted seeded = record {
      models = record {
        buckets = md.buckets;
        holds =
            Holds-ext
              (push_front-Holds d.seed d.bucket
                (record { hash = hash k dict.seed; key = k; value = v }) d.table
                (IsBuckets-IsSize md.buckets) md.holds.width md.holds.placed
                (ap (hash k) (sym seeded), proper) (md.holds.reads k ∙ e))
              (omega arith) (λ q. ap (λ x. if equals k q then some v else x) (md.holds.reads q));
      };
      count = rw e (omega arith);
    }

    unchanged : Added f dict k v (false, expand a dict)
    unchanged = record { models = m'; count = (expand-count a dict).0 }

-- On a table that represents a map and has room to count one more pair, `__hashmap_add__`, on
-- every branch, refines an update of the map at the key: it puts the value at all keys equal to it
-- and returns `True`, or returns `False` and changes nothing in the map.
pub add-Added :
    {f : Reading} {dict : HashMap} (a : Allocator) (k v : Variant)
    → Models f dict
    → dict.count + 1 < 2 ^ 64
    → Added f dict k v (add a dict k v)
unfolding add
add-Added {f} {dict} a k v m room = elim (Bool-cases (is_key k)) [
  | inr improper ↦ rw improper (record { models = m; count = refl })
  | inl proper ↦
      let found = find-chain_at k m in
      elim (Option-cases (f k)) [
        | inl e ↦ rw (proper, found ∙ e) (add_absent-Added a k v m room proper e)
        | inr (old, e) ↦ rw (proper, found ∙ e) (add_present-Added a k v old m e)
      ]
]

-- With a proper key and an allocator that grants the copies and the node, `__hashmap_add__`
-- returns `True`, whether or not the table could grow.
pub add_succeeds :
    (a : Allocator) (dict : HashMap) (k v : Variant)
    → is_key k ≡ true
    → a.key ≡ true
    → a.value ≡ true
    → a.node ≡ true
    → (add a dict k v).0 ≡ true
unfolding add add_present add_absent
add_succeeds a dict k v proper key_ok value_ok node_ok =
    ground (arith, copy-granted k, copy-granted v)
