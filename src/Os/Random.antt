-- ===== src/Os/Random.antt =====
-- The random numbers of os.c.
use stdc.Prelude.Bits.{bit_and-mask}
use stdc.Prelude.Blocks.{copy_into}
use stdc.Prelude.Word.{u64, shr, bit_and, bit_or}
use stdc.Prelude.{
  ℕ, zero, suc, ◌+◌, ◌-◌, ◌*◌, ◌%◌, ◌^◌, ◌<◌, ◌≡◌, sym, ap, ◌∙◌, List, [], ◌∷◌, arith, length, take,
  drop, min, ◌==◌, ltb, if◌then◌else◌, Option, none, some,
}

-- `OS_SEED` after `os_srand`: `time(NULL)` as an `unsigned int`, and what `rand` returns.
unfoldable pub srand : ℕ → ℕ → ℕ
srand i r = bit_or (i * 2 ^ 16) r

-- `OS_SEED` after a call of `os_random`, in 64 bits.
unfoldable pub next_seed : ℕ → ℕ
next_seed seed = bit_and (u64 (u64 (0x5deece66d * seed) + 0xb)) 0xffffffffffff

-- The fraction of the interval, in units of 2 ^ -32.
unfoldable pub fraction : ℕ → ℕ
fraction seed = shr seed 16

next_seed_lem : (seed : ℕ) → next_seed seed ≡ (0x5deece66d * seed + 0xb) % 2 ^ 48
unfolding next_seed
next_seed_lem seed = bit_and-mask 48 (u64 (u64 (0x5deece66d * seed) + 0xb)) ∙ omega arith

-- The inverse step: the multiplier has an inverse modulo 2 ^ 48.
previous : ℕ → ℕ
previous x = (246154705703781 * x + 107048004364969) % 2 ^ 48

previous-next : (a : ℕ) → a < 2 ^ 48 → previous ((0x5deece66d * a + 0xb) % 2 ^ 48) ≡ a
unfolding previous
previous-next a h = omega arith

-- The seed stays below 2 ^ 48, so that the fraction which `os_random` multiplies by the interval is
-- below 1; and no two seeds of 48 bits have the same successor, so that the generator permutes them.
pub next_seed_permutes :
    (a b : ℕ)
    → a < 2 ^ 48
    → b < 2 ^ 48
    → (next_seed a < 2 ^ 48)
      × ((fraction (next_seed a) < 2 ^ 32) × (next_seed a ≡ next_seed b → a ≡ b))
unfolding fraction
next_seed_permutes a b h k = (
  omega (arith, next_seed_lem a),
  (
    omega (arith, next_seed_lem a),
    λ e.
        sym (ap previous (next_seed_lem a) ∙ previous-next a h)
        ∙ ap previous e
        ∙ (ap previous (next_seed_lem b) ∙ previous-next b k),
  ),
)

-- What the calls of `read` on "/dev/urandom" return: so many of the bytes to come and no more than are
-- asked for, -1 with `EINTR`, or another error.
pub data ReadAnswer : Type 0 where
  got : ℕ → ReadAnswer
  interrupted failed : ReadAnswer

-- Whether 0 or 1 is returned, or the call still waits; the buffer; and the open descriptors.
pub record Filled : Type 0 where
  pub status : Option ℕ
  pub buffer : List ℕ
  pub descriptors : ℕ

-- The loop of `os_random_bytes`, with `remaining` bytes to come from `position` on; `source` is what
-- the device has to give.
unfoldable pub fill_loop : List ReadAnswer → List ℕ → ℕ → ℕ → List ℕ → ℕ → Filled
fill_loop answers source zero position buffer descriptors = record {
  status = some 0;
  buffer = buffer;
  descriptors = descriptors - 1;
}
fill_loop [] source (suc remaining) position buffer descriptors = record {
  status = none;
  buffer = buffer;
  descriptors = descriptors;
}
fill_loop (interrupted ∷ answers) source (suc remaining) position buffer descriptors =
    fill_loop answers source (suc remaining) position buffer descriptors
fill_loop (failed ∷ answers) source (suc remaining) position buffer descriptors = record {
  status = some 1;
  buffer = buffer;
  descriptors = descriptors - 1;
}
fill_loop (got k ∷ answers) source (suc remaining) position buffer descriptors =
    let chunk = if ltb (2 ^ 63 - 1) (suc remaining) then 2 ^ 63 - 1 else suc remaining in
    let taken = take (min k chunk) source in
    let count = length taken in
    let rest =
      fill_loop answers (drop count source) (suc remaining - count) (position + count)
        (copy_into buffer position taken) descriptors in
    if count == 0
    then record { status = some 1; buffer = buffer; descriptors = descriptors - 1 }
    else rest

-- What `open` returns: a descriptor, -1 with `EINTR`, or another error.
pub data OpenAnswer : Type 0 where
  descriptor retry refused : OpenAnswer

unfoldable pub open_loop : List OpenAnswer → List ReadAnswer → List ℕ → ℕ → List ℕ → ℕ → Filled
open_loop [] answers source length buffer descriptors = record {
  status = none;
  buffer = buffer;
  descriptors = descriptors;
}
open_loop (descriptor ∷ opens) answers source length buffer descriptors =
    fill_loop answers source length 0 buffer (descriptors + 1)
open_loop (retry ∷ opens) answers source length buffer descriptors =
    open_loop opens answers source length buffer descriptors
open_loop (refused ∷ opens) answers source length buffer descriptors = record {
  status = some 1;
  buffer = buffer;
  descriptors = descriptors;
}

-- `os_random_bytes` at a buffer that is there.
unfoldable pub random_bytes : List OpenAnswer → List ReadAnswer → List ℕ → ℕ → List ℕ → ℕ → Filled
random_bytes opens answers source length buffer descriptors =
    if length == 0
    then record { status = some 0; buffer = buffer; descriptors = descriptors }
    else open_loop opens answers source length buffer descriptors
