-- ===== src/HashSet/Rebuild.antt =====
-- The move of all values into another table in `__set_resize__` and `__set_shrink__` of set.c.
use stdc.HashSet.Counts.{is_used, is_live, total, total-replicate, IsTable, reinsert-done}
use stdc.HashSet.Probe.{empty}
use stdc.HashSet.Search.{IsCapacity}
use stdc.HashSet.Table.{Set, done, rebuild}
use stdc.Prelude.Powers.{two-pow-suc}
use stdc.Prelude.{
  ℕ, zero, suc, ◌*◌, ◌/◌, ◌^◌, ◌≤◌, ◌<◌, ◌≡◌, refl, arith, replicate, length-replicate,
}

pub rebuild-Returns :
    (s : Set) (capacity : ℕ)
    → IsTable s
    → IsCapacity capacity
    → s.count ≤ capacity
    → (t : Set) × (rebuild s capacity ≡ done t)
      × IsTable t
      × (t.used ≡ s.count)
      × (t.capacity ≡ capacity)
unfolding rebuild
rebuild-Returns s capacity t c room =
    let zero_used : total is_used (replicate capacity empty) ≡ 0 =
      total-replicate is_used capacity refl in
    let zero_live : total is_live (replicate capacity empty) ≡ 0 =
      total-replicate is_live capacity refl in
    let (after, placed, width, used, count) =
      reinsert-done capacity s.buckets (replicate capacity empty) c
        (length-replicate capacity empty) (omega (arith, t.count)) (omega arith) in
    (
      record { buckets = after; capacity = capacity; count = s.count; used = s.count },
      rw (placed, rebuild) refl,
      record {
        slots = c;
        width = width;
        used = omega (arith, t.count);
        count = omega (arith, t.count);
      },
      refl,
      refl,
    )

pub double-IsCapacity :
    (capacity : ℕ) → IsCapacity capacity → capacity < 2 ^ 63 → IsCapacity (capacity * 2)
double-IsCapacity capacity c h =
    let twice = two-pow-suc c.exponent in
    record {
      exponent = suc c.exponent;
      power = omega (arith, c.power);
      positive = omega (arith, c.positive);
      small = omega arith;
    }

half_exponent :
    (k capacity : ℕ) → capacity ≡ 2 ^ k → 0 < capacity / 2 → (j : ℕ) × (capacity / 2 ≡ 2 ^ j)
half_exponent zero capacity e h = absurd (omega arith)
half_exponent (suc k) capacity e h = let twice = two-pow-suc k in (k, omega arith)

pub half-IsCapacity :
    (capacity : ℕ) → IsCapacity capacity → 0 < capacity / 2 → IsCapacity (capacity / 2)
half-IsCapacity capacity c h =
    let (j, e) = half_exponent c.exponent capacity c.power h in
    let small = c.small in record { exponent = j; power = e; positive = h; small = omega arith }
