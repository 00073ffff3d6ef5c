-- ===== src/Sha256/Standard.antt =====
-- SHA-256 as FIPS 180-4 describes it, apart from the code of sha256.c: numbers below 2 ^ 32 for words,
-- arithmetic for shifts and for the order of bytes, and the constants from roots of primes.
use stdc.Prelude.Blocks.{chain}
use stdc.Prelude.Word.{bit_and, bit_xor}
use stdc.Prelude.{
  ℕ, zero, suc, ◌+◌, ◌-◌, ◌*◌, ◌/◌, ◌%◌, ◌^◌, List, [], ◌∷◌, ◌++◌, map, leb, if◌then◌else◌, get_or,
  take, drop, length,
}
use stdc.Sha256.Padding.{pad}

abbrev pub primes : List ℕ
primes =
    2 ∷ 3 ∷ 5 ∷ 7 ∷ 11 ∷ 13 ∷ 17 ∷ 19 ∷ 23 ∷ 29 ∷ 31 ∷ 37 ∷ 41 ∷ 43 ∷ 47 ∷ 53 ∷ 59 ∷ 61 ∷ 67 ∷ 71
    ∷ 73 ∷ 79 ∷ 83 ∷ 89 ∷ 97 ∷ 101 ∷ 103 ∷ 107 ∷ 109 ∷ 113 ∷ 127 ∷ 131 ∷ 137 ∷ 139 ∷ 149 ∷ 151 ∷ 157
    ∷ 163 ∷ 167 ∷ 173 ∷ 179 ∷ 181 ∷ 191 ∷ 193 ∷ 197 ∷ 199 ∷ 211 ∷ 223 ∷ 227 ∷ 229 ∷ 233 ∷ 239 ∷ 241
    ∷ 251 ∷ 257 ∷ 263 ∷ 269 ∷ 271 ∷ 277 ∷ 281 ∷ 283 ∷ 293 ∷ 307 ∷ 311 ∷ []

-- The largest number of at most `bits` binary digits, above `root`, whose power is at most `n`.
unfoldable pub root_loop : ℕ → ℕ → ℕ → ℕ → ℕ
root_loop zero power n root = root
root_loop (suc bits) power n root =
    root_loop bits power n (if leb ((root + 2 ^ bits) ^ power) n then root + 2 ^ bits else root)

-- The first 32 binary digits of the fractional part of a root: of the root times 2 ^ 32, what is left
-- without the whole part. The roots here are below 2 ^ 5.
unfoldable pub root_fraction : ℕ → ℕ → ℕ
root_fraction power p = root_loop 37 power (p * 2 ^ (32 * power)) 0 % 2 ^ 32

-- The constants, from cube roots, and the first hash value, from square roots.
unfoldable pub standard_constants : List ℕ
standard_constants = map (root_fraction 3) primes

unfoldable pub standard_initial : List ℕ
standard_initial = map (root_fraction 2) (take 8 primes)

-- ROTR and SHR.
unfoldable pub rotr : ℕ → ℕ → ℕ
rotr n x = x / 2 ^ n + (x % 2 ^ n) * 2 ^ (32 - n)

unfoldable pub small_sigma0 : ℕ → ℕ
small_sigma0 x = bit_xor (bit_xor (rotr 7 x) (rotr 18 x)) (x / 2 ^ 3)

unfoldable pub small_sigma1 : ℕ → ℕ
small_sigma1 x = bit_xor (bit_xor (rotr 17 x) (rotr 19 x)) (x / 2 ^ 10)

unfoldable pub big_sigma0 : ℕ → ℕ
big_sigma0 x = bit_xor (bit_xor (rotr 2 x) (rotr 13 x)) (rotr 22 x)

unfoldable pub big_sigma1 : ℕ → ℕ
big_sigma1 x = bit_xor (bit_xor (rotr 6 x) (rotr 11 x)) (rotr 25 x)

unfoldable pub ch : ℕ → ℕ → ℕ → ℕ
ch x y z = bit_xor (bit_and x y) (bit_and (2 ^ 32 - 1 - x) z)

unfoldable pub maj : ℕ → ℕ → ℕ → ℕ
maj x y z = bit_xor (bit_xor (bit_and x y) (bit_and x z)) (bit_and y z)

-- Four bytes as a word, most significant first, and back.
unfoldable pub parse_words : List ℕ → List ℕ
parse_words (a ∷ b ∷ c ∷ d ∷ bytes) =
    (((a * 2 ^ 8 + b) * 2 ^ 8 + c) * 2 ^ 8 + d) ∷ parse_words bytes
parse_words bytes = []

unfoldable pub write_words : List ℕ → List ℕ
write_words [] = []
write_words (x ∷ words) =
    (x / 2 ^ 24) % 2 ^ 8
    ∷ (x / 2 ^ 16) % 2 ^ 8
    ∷ (x / 2 ^ 8) % 2 ^ 8
    ∷ x % 2 ^ 8
    ∷ write_words words

-- The message schedule: `n` more words behind the last sixteen.
unfoldable pub schedule : ℕ → List ℕ → List ℕ
schedule zero window = []
schedule (suc n) window =
    let w =
      (small_sigma1 (get_or window 14 0)
        + get_or window 9 0
        + small_sigma0 (get_or window 1 0)
        + get_or window 0 0)
      % 2 ^ 32 in
    w ∷ schedule n (drop 1 window ++ w ∷ [])

-- The eight working variables from `a` to `h`.
unfoldable pub standard_rounds : List ℕ → List ℕ → List ℕ → List ℕ
standard_rounds (k ∷ ks) (w ∷ ws) (a ∷ b ∷ c ∷ d ∷ e ∷ f ∷ g ∷ h ∷ []) =
    let t1 = h + big_sigma1 e + ch e f g + k + w in
    let t2 = big_sigma0 a + maj a b c in
    standard_rounds ks ws ((t1 + t2) % 2 ^ 32 ∷ a ∷ b ∷ c ∷ (d + t1) % 2 ^ 32 ∷ e ∷ f ∷ g ∷ [])
standard_rounds ks ws v = v

unfoldable pub add_words : List ℕ → List ℕ → List ℕ
add_words (x ∷ xs) (y ∷ ys) = (x + y) % 2 ^ 32 ∷ add_words xs ys
add_words xs ys = []

-- The next hash value.
unfoldable pub standard_compress : List ℕ → List ℕ → List ℕ
standard_compress state block =
    let m = parse_words block in
    add_words (standard_rounds standard_constants (m ++ schedule 48 m) state) state

unfoldable pub fips_digest : List ℕ → List ℕ
fips_digest m = write_words (chain standard_compress (length (pad m) / 64) standard_initial (pad m))
