-- ===== src/HashMap/Variant.antt =====
-- `HashMapVariant` of hashmap.h, and the functions of hashmap.c on one value: equality, hash, copy.
-- A 32-bit or 64-bit member is its bit pattern, a string its bytes without the final zero. `none`
-- is the null `char *`, and the pointer 0 the null `void *`. Bytes are in little-endian order.
pub mod Laws
use stdc.Prelude.Word.{u8, u64, shr, bit_xor}
use stdc.Prelude.{
  ℕ, zero, suc, ◌*◌, ◌^◌, ◌/◌, ◌%◌, Bool, true, false, not, ◌&&◌, ◌||◌, Option, none, some, List,
  [], ◌∷◌, ltb, ◌==◌, if◌then◌else◌, length,
}

pub data Variant : Type 0 where
  null : Variant
  string : Option (List ℕ) → Variant
  pointer : ℕ → Variant
  int32 : ℕ → Variant
  int64 : ℕ → Variant
  uint32 : ℕ → Variant
  uint64 : ℕ → Variant
  float : ℕ → Variant
  double : ℕ → Variant

-- The `length` low bytes of a word in memory.
unfoldable pub bytes_of : ℕ → ℕ → List ℕ
bytes_of zero x = []
bytes_of (suc n) x = u8 x ∷ bytes_of n (x / 2 ^ 8)

unfoldable pub fnv1a_loop : ℕ → List ℕ → ℕ
fnv1a_loop hash [] = hash
fnv1a_loop hash (b ∷ input) = fnv1a_loop (u64 (bit_xor hash b * 0x100000001B3)) input

unfoldable pub hash_fnv1a : List ℕ → ℕ → ℕ
unfolding fnv1a_loop
hash_fnv1a input seed = fnv1a_loop (bit_xor seed 0xcbf29ce484222325) input

-- IEEE 754 on bit patterns: `x != x`, `x == 0.0` and `x == y`.
unfoldable pub float_is_nan : ℕ → Bool
float_is_nan x = ltb 0x7F800000 (x % 2 ^ 31)

unfoldable pub float_is_zero : ℕ → Bool
float_is_zero x = x % 2 ^ 31 == 0

unfoldable pub double_is_nan : ℕ → Bool
double_is_nan x = ltb 0x7FF0000000000000 (x % 2 ^ 63)

unfoldable pub double_is_zero : ℕ → Bool
double_is_zero x = x % 2 ^ 63 == 0

unfoldable pub ieee_equal : (ℕ → Bool) → (ℕ → Bool) → ℕ → ℕ → Bool
ieee_equal is_nan is_zero x y =
    not (is_nan x) && not (is_nan y) && (x == y || is_zero x && is_zero y)

-- The case of `_HASHMAP_FLOAT` and of `_HASHMAP_DOUBLE` in the two functions below.
unfoldable pub hash_ieee : (ℕ → Bool) → (ℕ → Bool) → ℕ → ℕ → ℕ → ℕ
hash_ieee is_nan is_zero size x seed =
    if is_nan x
    then bit_xor seed 0x7FF8000000000000
    else hash_fnv1a (bytes_of size (if is_zero x then 0 else x)) seed

unfoldable pub equals_ieee : (ℕ → Bool) → (ℕ → Bool) → ℕ → ℕ → Bool
unfolding ieee_equal
equals_ieee is_nan is_zero x y =
    if is_nan x && is_nan y then true else ieee_equal is_nan is_zero x y

-- `strlen` of a null pointer is undefined; the callers of `__hashmap_hash__` exclude it.
unfoldable pub hash : Variant → ℕ → ℕ
unfolding hash_ieee bytes_of hash_fnv1a float_is_nan float_is_zero double_is_nan double_is_zero
hash null seed = 0
hash (string none) seed = 0
hash (string (some s)) seed = hash_fnv1a s seed
hash (pointer p) seed = u64 (bit_xor (bit_xor p seed) (shr p 32) * 11400714819323198485)
hash (int32 i) seed = hash_fnv1a (bytes_of 4 i) seed
hash (int64 l) seed = hash_fnv1a (bytes_of 8 l) seed
hash (uint32 ui) seed = hash_fnv1a (bytes_of 4 ui) seed
hash (uint64 ul) seed = hash_fnv1a (bytes_of 8 ul) seed
hash (float f) seed = hash_ieee float_is_nan float_is_zero 4 f seed
hash (double d) seed = hash_ieee double_is_nan double_is_zero 8 d seed

-- `strcmp(x, y) == 0`
unfoldable pub strcmp_equal : List ℕ → List ℕ → Bool
strcmp_equal [] [] = true
strcmp_equal [] (d ∷ y) = false
strcmp_equal (c ∷ x) [] = false
strcmp_equal (c ∷ x) (d ∷ y) = c == d && strcmp_equal x y

unfoldable pub equals_string : Option (List ℕ) → Option (List ℕ) → Bool
unfolding strcmp_equal
equals_string none none = true
equals_string none (some y) = false
equals_string (some x) none = false
equals_string (some x) (some y) = strcmp_equal x y

unfoldable pub equals : Variant → Variant → Bool
unfolding equals_string equals_ieee float_is_nan float_is_zero double_is_nan double_is_zero
equals null null = false
equals (string x) (string y) = equals_string x y
equals (pointer p) (pointer q) = p == q
equals (int32 x) (int32 y) = x == y
equals (int64 x) (int64 y) = x == y
equals (uint32 x) (uint32 y) = x == y
equals (uint64 x) (uint64 y) = x == y
equals (float x) (float y) = equals_ieee float_is_nan float_is_zero x y
equals (double x) (double y) = equals_ieee double_is_nan double_is_zero x y
equals _ _ = false

-- `strdup` answers as the allocator does; a failed copy is `_HASHMAP_NULL`.
unfoldable pub copy : Bool → Variant → Variant
copy strdup (string (some s)) = if strdup then string (some s) else null
copy strdup src = src

-- The test after each copy: a string that `strdup` could not copy.
unfoldable pub copy_failed : Variant → Variant → Bool
copy_failed (string (some s)) null = true
copy_failed src dst = false

-- The three guards of `__hashmap_add__`, `__hashmap_get__` and `__hashmap_remove__` on the key.
unfoldable pub is_key : Variant → Bool
is_key null = false
is_key (string none) = false
is_key (pointer p) = not (p == 0)
is_key x = true
