-- ===== src/HashMap/Table/Refine.antt =====
-- The whole table as a map from keys to values: what `Models f dict` promises, and `resize`.
pub mod Reads
pub mod Writes
pub mod Removes
pub mod History
use mathlib.Core.List.{flatten}
use stdc.HashMap.Capacity.Power.{IsLeastPower, least, overflow, next_power_base-IsLeastPower}
use stdc.HashMap.Capacity.{next_power_base, power_loop}
use stdc.HashMap.Chain.{Chain}
use stdc.HashMap.Table.Buckets.{IsSize, Holds, view}
use stdc.HashMap.Table.Rehash.{Reading, rehash-Holds}
use stdc.HashMap.Table.{HashMap, Allocator, calloc, init_buckets, resize_target, resize, rehash}
use stdc.HashMap.Variant.{Variant}
use stdc.Prelude.Powers.{two-pow-le}
use stdc.Prelude.{
  ℕ, ◌+◌, ◌*◌, ◌^◌, ◌≤◌, ◌<◌, ◌≡◌, refl, sym, ◌⊎◌, inl, inr, Bool, true, false, Option, none, some,
  List, [], arith, ltb, ◌==◌, Bool-cases, Option-cases, length, replicate,
}
use native.Mathlib.Decide.{dec_lt}

-- A power of two from 8 up; `calloc` grants no table of more than 2 ^ 60 pointers.
pub IsBuckets : ℕ → Type 0
IsBuckets n = (k : ℕ) × (n ≡ 2 ^ k) × (3 ≤ k) × (k ≤ 60)

-- `dict` is well formed and represents the map `f`.
pub record Models (f : Variant → Option Variant) (dict : HashMap) : Type 0 where
  pub buckets : IsBuckets dict.bucket
  pub holds : Holds dict.seed dict.bucket dict.count f dict.table

pub IsBuckets-bounds : {n : ℕ} → IsBuckets n → (8 ≤ n) × (n ≤ 2 ^ 60)
unfolding IsBuckets
IsBuckets-bounds (k, e, lo, hi) =
    (omega (arith, two-pow-le {i = 3} {j = k} lo), omega (arith, two-pow-le {i = k} {j = 60} hi))

pub IsBuckets-IsSize : {n : ℕ} → IsBuckets n → IsSize n
IsBuckets-IsSize b = omega (arith, IsBuckets-bounds b)

pub init_buckets_lem : init_buckets ≡ 8
unfolding init_buckets next_power_base
init_buckets_lem = refl

pub eight-IsBuckets : IsBuckets 8
unfolding IsBuckets
eight-IsBuckets = (3, refl, omega arith, omega arith)

-- `resize` only ever asks for a power of two, at least 8.
resize_target_lem : (n : ℕ) → n < 2 ^ 64 → (j : ℕ) × (resize_target n ≡ 2 ^ j) × (3 ≤ j)
unfolding resize_target
resize_target_lem n h = elim (Bool-cases (ltb (next_power_base n 2) 8)) [
  | inl small ↦ (3, rw (small, init_buckets_lem), omega arith)
  | inr large ↦ rw large (wide (ground arith) (next_power_base-IsLeastPower n 2 (omega arith) h))
]
  where
    wide : {r : ℕ} → 8 ≤ r → IsLeastPower n 2 r → (j : ℕ) × (r ≡ 2 ^ j) × (3 ≤ j)
    wide big (least j e fits reach below) = elim (dec_lt j 3) [
      | yes low ↦ absurd (omega (arith, two-pow-le {i = j} {j = 2} (omega arith)))
      | no high ↦ (j, e, omega arith)
    ]
    wide big (overflow j e lt past) = absurd (omega arith)

-- A request that `calloc` grants is for a table that fits.
calloc-some :
    (answer : Bool) (n : ℕ) {table : List Chain}
    → calloc answer n ≡ some table
    → (n * 8 < 2 ^ 64) × (table ≡ replicate n [])
unfolding calloc
calloc-some answer n h = ground arith

target-IsBuckets : (t j : ℕ) → t ≡ 2 ^ j → 3 ≤ j → t * 8 < 2 ^ 64 → IsBuckets t
unfolding IsBuckets
target-IsBuckets t j e lo room = elim (dec_lt 60 j) [
  | yes high ↦ absurd (omega (arith, two-pow-le {i = 61} {j = j} high))
  | no fits ↦ (j, e, lo, omega arith)
]

-- On a table that represents a map, `__hashmap_resize__` with any `uint64` argument keeps the map,
-- whether or not it gets its new table.
pub resize-Models :
    {f : Reading} {dict : HashMap} (a : Allocator) (n : ℕ)
    → n < 2 ^ 64
    → Models f dict
    → Models f (resize a dict n).1
unfolding resize
resize-Models {f} {dict} a n h m = elim (Bool-cases (target == dict.bucket)) [
  | inl same ↦ rw same m
  | inr other ↦ elim (Option-cases (calloc a.table target)) [
    | inl refused ↦ rw (other, refused) m
    | inr (fresh, granted) ↦ rw (other, granted) (grown fresh granted)
  ]
]
  where
    target : ℕ
    target = resize_target n

    grown :
        (fresh : List Chain)
        → calloc a.table target ≡ some fresh
        → Models f (record dict { table = rehash target dict.table fresh; bucket = target })
    grown fresh granted =
        let (room, zeroed) = calloc-some a.table target granted in
        let (j, e, lo) = resize_target_lem n h in
        let size = target-IsBuckets target j e lo room in
        record {
          buckets = size;
          holds = rw zeroed (
              rehash-Holds dict.seed dict.bucket target dict.count f dict.table
                (IsBuckets-IsSize size) m.holds);
        }
