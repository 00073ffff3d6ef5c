-- ===== src/HashSet/Equal.antt =====
-- `__set_slot_equal__` is an equivalence of values, with which `__set_get_hash__` agrees.
use stdc.HashMap.Variant.{float_is_nan, float_is_zero, double_is_nan, double_is_zero}
use stdc.HashMap.Variant.Laws.{
  strcmp_equal→eq, strcmp_equal_refl, canonical_ieee, equals_ieee_sound, equals_ieee_complete,
}
use stdc.HashSet.Element.{Element, int, long, float, double, string, get_hash, element_equal}
use stdc.Prelude.{ℕ, ◌≡◌, refl, sym, ap, ◌∙◌, Bool, true, arith, ==_iff}

-- The value that stands for all that `__set_slot_equal__` cannot tell from it.
unfoldable pub canonical : Element → Element
canonical (float f) = float (canonical_ieee float_is_nan float_is_zero 0x7FC00000 f)
canonical (double d) = double (canonical_ieee double_is_nan double_is_zero 0x7FF8000000000000 d)
canonical x = x

equal_sound : (x y : Element) → element_equal x y ≡ true → canonical x ≡ canonical y
unfolding element_equal canonical float_is_nan float_is_zero double_is_nan double_is_zero
equal_sound (int x) (int y) h = ap int ((==_iff x y).0 h)
equal_sound (long x) (long y) h = ap long ((==_iff x y).0 h)
equal_sound (float x) (float y) h =
    ap float (equals_ieee_sound float_is_nan float_is_zero 0x7FC00000 refl refl refl x y h)
equal_sound (double x) (double y) h =
    ap double
      (equals_ieee_sound double_is_nan double_is_zero 0x7FF8000000000000 refl refl refl x y h)
equal_sound (string x) (string y) h = ap string (strcmp_equal→eq x y h)
equal_sound _ _ h = cc

equal_complete : (x y : Element) → canonical x ≡ canonical y → element_equal x y ≡ true
unfolding element_equal canonical float_is_nan float_is_zero double_is_nan double_is_zero
equal_complete (int x) (int y) h = ground arith
equal_complete (long x) (long y) h = ground arith
equal_complete (float x) (float y) h =
    equals_ieee_complete float_is_nan float_is_zero 0x7FC00000 refl refl refl x y (cc)
equal_complete (double x) (double y) h =
    equals_ieee_complete double_is_nan double_is_zero 0x7FF8000000000000 refl refl refl x y (cc)
equal_complete (string x) (string y) h = let e : x ≡ y = cc in rw e (strcmp_equal_refl y)
equal_complete _ _ h = cc

pub equal_refl : (x : Element) → element_equal x x ≡ true
equal_refl x = equal_complete x x refl

agree : (a b : Bool) → (a ≡ true → b ≡ true) → (b ≡ true → a ≡ true) → a ≡ b
agree a b f g = ground (arith, f, g)

-- A value may be replaced by an equal one on either side.
pub equal_left :
    (x y z : Element) → element_equal x y ≡ true → element_equal x z ≡ element_equal y z
equal_left x y z h =
    let e = equal_sound x y h in
    agree (element_equal x z) (element_equal y z)
      (λ t. equal_complete y z (sym e ∙ equal_sound x z t))
      (λ t. equal_complete x z (e ∙ equal_sound y z t))

pub equal_right :
    (x y z : Element) → element_equal y z ≡ true → element_equal x y ≡ element_equal x z
equal_right x y z h =
    let e = equal_sound y z h in
    agree (element_equal x y) (element_equal x z) (λ t. equal_complete x z (equal_sound x y t ∙ e))
      (λ t. equal_complete x y (equal_sound x z t ∙ sym e))

float_hash :
    (f : ℕ)
    → get_hash (float (canonical_ieee float_is_nan float_is_zero 0x7FC00000 f)) ≡ get_hash (float f)
unfolding get_hash canonical_ieee float_is_nan float_is_zero
float_hash f = ground arith

double_hash :
    (d : ℕ)
    → get_hash (double (canonical_ieee double_is_nan double_is_zero 0x7FF8000000000000 d))
      ≡ get_hash (double d)
unfolding get_hash canonical_ieee double_is_nan double_is_zero
double_hash d = ground arith

hash-canonical : (x : Element) → get_hash (canonical x) ≡ get_hash x
unfolding canonical
hash-canonical (int x) = refl
hash-canonical (long x) = refl
hash-canonical (float f) = float_hash f
hash-canonical (double d) = double_hash d
hash-canonical (string s) = refl

-- Equal values have the same hash.
pub hash-equal : (x y : Element) → element_equal x y ≡ true → get_hash x ≡ get_hash y
hash-equal x y h = sym (hash-canonical x) ∙ ap get_hash (equal_sound x y h) ∙ hash-canonical y
