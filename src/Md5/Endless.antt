-- ===== src/Md5/Endless.antt =====
-- Where `__md5_update__` does not return.
use stdc.Prelude.Word.{u32}
use stdc.Prelude.{
  ℕ, zero, suc, ◌+◌, ◌-◌, ◌%◌, ◌^◌, ◌≤◌, ◌<◌, ◌≡◌, true, List, arith, take, drop, leb, none, refl,
}
use stdc.Md5.Context.{md5_transform_loop}
use stdc.Md5.Transform.{md5_transform}

-- From an index that is a multiple of 64 on, as it is in a context that holds whole blocks, the loop
-- of `__md5_update__` does not end where the length is within 64 of 2 ^ 32: the 32-bit sum `i + 64`
-- wraps around to 0, and no number of rounds ends the loop.
pub md5_transform_loop-endless :
    (fuel i n : ℕ) (state input : List ℕ)
    → i % 64 ≡ 0
    → i < 2 ^ 32
    → 2 ^ 32 - 64 ≤ n
    → n < 2 ^ 32
    → md5_transform_loop fuel i n state input ≡ none
unfolding md5_transform_loop
md5_transform_loop-endless zero i n state input aligned word large bounded = refl
md5_transform_loop-endless (suc fuel) i n state input aligned word large bounded =
    let go : leb (u32 (i + 64)) n ≡ true = ground arith in
    rw go (
      md5_transform_loop-endless fuel (u32 (i + 64)) n
        (md5_transform state (take 64 (drop i input))) input (omega arith) (omega arith) large
        bounded)
