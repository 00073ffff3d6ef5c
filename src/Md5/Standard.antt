-- ===== src/Md5/Standard.antt =====
-- MD5 as RFC 1321 describes it, apart from the code of md5.c: numbers below 2 ^ 32 for words,
-- arithmetic for rotations and for the order of bytes, and the constants from the sine.
use stdc.Prelude.Blocks.{chain}
use stdc.Prelude.Word.{bit_and, bit_or, bit_xor}
use stdc.Prelude.{
  ℕ, zero, suc, ◌+◌, ◌-◌, ◌*◌, ◌/◌, ◌%◌, ◌^◌, List, [], ◌∷◌, leb, ltb, ◌==◌, if◌then◌else◌, get_or,
  length,
}
use stdc.Md5.Padding.{pad}

-- The terms of the series of exp(`x`) in units of 2 ^ -160: `term` is the one at `j`. The sine takes
-- those at 1, 5, 9, ... and subtracts those at 3, 7, 11, ...; `n` more terms are summed, of which
-- `plus` and `minus` have those before.
unfoldable pub sine_loop : ℕ → ℕ → ℕ → ℕ → ℕ → ℕ → ℕ × ℕ
sine_loop zero j x term plus minus = (plus, minus)
sine_loop (suc n) j x term plus minus =
    sine_loop n (j + 1) x (term * x / (j + 1)) (if j % 4 == 1 then plus + term else plus)
      (if j % 4 == 3 then minus + term else minus)

unfoldable pub distance : ℕ → ℕ → ℕ
distance a b = if leb a b then b - a else a - b

-- The integer part of 2 ^ 32 times the absolute value of the sine of `x` radians. For `x` up to 64
-- the terms behind the first 320 are below the unit.
unfoldable pub sine_word : ℕ → ℕ
sine_word x = let (plus, minus) = sine_loop 320 0 x (2 ^ 160) 0 0 in distance plus minus / 2 ^ 128

-- The first state, from its bytes.
abbrev pub initial_bytes : List ℕ
initial_bytes =
    0x01 ∷ 0x23 ∷ 0x45 ∷ 0x67 ∷ 0x89 ∷ 0xab ∷ 0xcd ∷ 0xef ∷ 0xfe ∷ 0xdc ∷ 0xba ∷ 0x98 ∷ 0x76 ∷ 0x54
    ∷ 0x32 ∷ 0x10 ∷ []

-- Four bytes as a word, least significant first, and back.
unfoldable pub parse_words : List ℕ → List ℕ
parse_words (a ∷ b ∷ c ∷ d ∷ bytes) =
    (a + 2 ^ 8 * (b + 2 ^ 8 * (c + 2 ^ 8 * d))) ∷ parse_words bytes
parse_words bytes = []

unfoldable pub write_words : List ℕ → List ℕ
write_words [] = []
write_words (x ∷ words) =
    x % 2 ^ 8
    ∷ (x / 2 ^ 8) % 2 ^ 8
    ∷ (x / 2 ^ 16) % 2 ^ 8
    ∷ (x / 2 ^ 24) % 2 ^ 8
    ∷ write_words words

unfoldable pub rotl : ℕ → ℕ → ℕ
rotl n x = (x % 2 ^ (32 - n)) * 2 ^ n + x / 2 ^ (32 - n)

-- The four auxiliary functions.
unfoldable pub aux_f : ℕ → ℕ → ℕ → ℕ
aux_f x y z = bit_or (bit_and x y) (bit_and (2 ^ 32 - 1 - x) z)

unfoldable pub aux_g : ℕ → ℕ → ℕ → ℕ
aux_g x y z = bit_or (bit_and x z) (bit_and y (2 ^ 32 - 1 - z))

unfoldable pub aux_h : ℕ → ℕ → ℕ → ℕ
aux_h x y z = bit_xor (bit_xor x y) z

unfoldable pub aux_i : ℕ → ℕ → ℕ → ℕ
aux_i x y z = bit_xor y (bit_or x (2 ^ 32 - 1 - z))

-- `n` operations of a round from operation `i` of all 64 on: a function, the word of each operation,
-- and four shifts in turn. The words A, B, C and D stand in the list in the roles that the next
-- operation gives them.
unfoldable pub rfc_round : (ℕ → ℕ → ℕ → ℕ) → (ℕ → ℕ) → List ℕ → ℕ → ℕ → List ℕ → List ℕ → List ℕ
rfc_round f k shifts (suc n) i x (a ∷ b ∷ c ∷ d ∷ []) = rfc_round f k shifts n (i + 1) x (
    d
    ∷ (b
        + rotl (get_or shifts (i % 4) 0)
            ((a + f b c d + get_or x (k i) 0 + sine_word (i + 1)) % 2 ^ 32))
      % 2 ^ 32
    ∷ b
    ∷ c
    ∷ [])
rfc_round f k shifts n i x v = v

unfoldable pub add_words : List ℕ → List ℕ → List ℕ
add_words (x ∷ xs) (y ∷ ys) = (x + y) % 2 ^ 32 ∷ add_words xs ys
add_words xs ys = []

-- The four rounds, and the sum with the state before.
unfoldable pub rfc_compress : List ℕ → List ℕ → List ℕ
rfc_compress state block =
    let x = parse_words block in
    let v1 = rfc_round aux_f (λ i. i) (7 ∷ 12 ∷ 17 ∷ 22 ∷ []) 16 0 x state in
    let v2 = rfc_round aux_g (λ i. (5 * i + 1) % 16) (5 ∷ 9 ∷ 14 ∷ 20 ∷ []) 16 16 x v1 in
    let v3 = rfc_round aux_h (λ i. (3 * i + 5) % 16) (4 ∷ 11 ∷ 16 ∷ 23 ∷ []) 16 32 x v2 in
    let v4 = rfc_round aux_i (λ i. 7 * i % 16) (6 ∷ 10 ∷ 15 ∷ 21 ∷ []) 16 48 x v3 in
    add_words state v4

unfoldable pub rfc_digest : List ℕ → List ℕ
rfc_digest m =
    write_words (chain rfc_compress (length (pad m) / 64) (parse_words initial_bytes) (pad m))

-- A byte as two lower-case hexadecimal digits, and a text of them as a C string.
unfoldable pub hex_digit : ℕ → ℕ
hex_digit n = if ltb n 10 then b'0' + n else b'a' + (n - 10)

unfoldable pub hex_text : List ℕ → List ℕ
hex_text [] = 0 ∷ []
hex_text (x ∷ bytes) = hex_digit (x / 16) ∷ hex_digit (x % 16) ∷ hex_text bytes
