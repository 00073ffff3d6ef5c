-- ===== src/HashSet/Element.antt =====
-- The values of a set in set.c, with their hash and equality. A value is its bit pattern, a string
-- its bytes without the final zero; an `int` has 4 bytes and a `long` 8.
use stdc.HashMap.Variant.{
  bytes_of, float_is_nan, float_is_zero, double_is_nan, double_is_zero, equals_ieee, strcmp_equal,
}
use stdc.Prelude.Word.{u32, bit_xor}
use stdc.Prelude.{ℕ, ◌*◌, Bool, false, List, [], ◌∷◌, ◌==◌, if◌then◌else◌}

-- The types of `_SetSlotState` from `SET_SLOT_INT` on.
pub data Element : Type 0 where
  int : ℕ → Element
  long : ℕ → Element
  float : ℕ → Element
  double : ℕ → Element
  string : List ℕ → Element

-- The loop of `__hash_fnv_1a__`.
unfoldable pub fnv_1a_loop : ℕ → List ℕ → ℕ
fnv_1a_loop hash [] = hash
fnv_1a_loop hash (b ∷ input) = fnv_1a_loop (u32 (bit_xor hash b * 16777619)) input

unfoldable pub hash_fnv_1a : List ℕ → ℕ
hash_fnv_1a input = fnv_1a_loop 2166136261 input

-- `__set_get_hash__`
unfoldable pub get_hash : Element → ℕ
get_hash (int i) = hash_fnv_1a (bytes_of 4 i)
get_hash (long l) = hash_fnv_1a (bytes_of 8 l)
get_hash (float f) =
    if float_is_nan f
    then 0x7FC00000
    else hash_fnv_1a (bytes_of 4 (if float_is_zero f then 0 else f))
get_hash (double d) =
    if double_is_nan d
    then 0x7FC00000
    else hash_fnv_1a (bytes_of 8 (if double_is_zero d then 0 else d))
get_hash (string s) = hash_fnv_1a s

-- `__set_slot_equal__` at a slot that holds a value.
unfoldable pub element_equal : Element → Element → Bool
element_equal (int x) (int y) = x == y
element_equal (long x) (long y) = x == y
element_equal (float x) (float y) = equals_ieee float_is_nan float_is_zero x y
element_equal (double x) (double y) = equals_ieee double_is_nan double_is_zero x y
element_equal (string x) (string y) = strcmp_equal x y
element_equal _ _ = false
