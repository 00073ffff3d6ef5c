-- ===== src/HashMap/Capacity.antt =====
-- `__next_power_base__` of hashmap.c, by which the table chooses its number of buckets.
pub mod Power
use stdc.Prelude.{ℕ, zero, suc, ◌-◌, ◌*◌, ◌/◌, ◌^◌, Option, none, some, ltb, leb, if◌then◌else◌}
use mathlib.Core.Option

-- `while (p < n)`, with fuel; `none` means that the fuel ran out.
unfoldable pub power_loop : ℕ → ℕ → ℕ → ℕ → Option ℕ
power_loop zero n base p = none
power_loop (suc fuel) n base p =
    let rest = power_loop fuel n base (p * base) in
    if ltb p n then (if ltb (18446744073709551615 / base) p then some 0 else rest) else some p

-- A power at least doubles on each round, so that 64 rounds reach past every `uint64`.
unfoldable pub next_power_base : ℕ → ℕ → ℕ
unfolding power_loop
next_power_base n base =
    if leb n 1 then 1 else if leb base 1 then 0 else Option.get_or (power_loop 64 n base 1) 0
