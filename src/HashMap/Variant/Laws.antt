-- ===== src/HashMap/Variant/Laws.antt =====
-- `__hashmap_variant_equals__` as an equivalence, and its agreement with `__hashmap_hash__`.
use stdc.HashMap.Variant.{
  Variant, null, string, pointer, int32, int64, uint32, uint64, float, double, hash_ieee,
  ieee_equal, equals_ieee, hash, strcmp_equal, equals_string, equals, is_key, float_is_nan,
  float_is_zero, double_is_nan, double_is_zero,
}
use stdc.Prelude.{
  ℕ, ◌≡◌, refl, ap, Bool, true, false, Option, none, some, List, [], ◌∷◌, arith, ==_iff, ◌≢◌, ◌↔◌,
  sym, ◌∙◌, if◌then◌else◌,
}

pub strcmp_equal→eq : (x y : List ℕ) → strcmp_equal x y ≡ true → x ≡ y
unfolding strcmp_equal
strcmp_equal→eq [] [] h = refl
strcmp_equal→eq [] (d ∷ y) h = cc
strcmp_equal→eq (c ∷ x) [] h = cc
strcmp_equal→eq (c ∷ x) (d ∷ y) h = ground (arith, strcmp_equal→eq x y)

pub strcmp_equal_refl : (x : List ℕ) → strcmp_equal x x ≡ true
unfolding strcmp_equal
strcmp_equal_refl [] = refl
strcmp_equal_refl (c ∷ x) = ground (arith, strcmp_equal_refl x)

equals_string→eq : (x y : Option (List ℕ)) → equals_string x y ≡ true → x ≡ y
unfolding equals_string
equals_string→eq none none h = refl
equals_string→eq none (some y) h = cc
equals_string→eq (some x) none h = cc
equals_string→eq (some x) (some y) h = ap some (strcmp_equal→eq x y h)

equals_string_refl : (x : Option (List ℕ)) → equals_string x x ≡ true
unfolding equals_string
equals_string_refl none = refl
equals_string_refl (some x) = strcmp_equal_refl x

-- One bit pattern for all NaN values, and one for both zeros.
unfoldable pub canonical_ieee : (ℕ → Bool) → (ℕ → Bool) → ℕ → ℕ → ℕ
canonical_ieee is_nan is_zero nan x = if is_nan x then nan else if is_zero x then 0 else x

-- The value that stands for all that `__hashmap_variant_equals__` cannot tell from `x`.
unfoldable pub canonical : Variant → Variant
unfolding canonical_ieee float_is_nan float_is_zero double_is_nan double_is_zero
canonical (float f) = float (canonical_ieee float_is_nan float_is_zero 0x7FC00000 f)
canonical (double d) = double (canonical_ieee double_is_nan double_is_zero 0x7FF8000000000000 d)
canonical x = x

module _ (is_nan is_zero : ℕ → Bool) (nan : ℕ) (nan_is : is_nan nan ≡ true)
    (zero_not : is_nan 0 ≡ false) (zero_is : is_zero 0 ≡ true) where
  abbrev pub form : ℕ → ℕ
  form = canonical_ieee is_nan is_zero nan

  pub equals_ieee_sound : (x y : ℕ) → equals_ieee is_nan is_zero x y ≡ true → form x ≡ form y
  unfolding equals_ieee ieee_equal canonical_ieee
  equals_ieee_sound x y h = ground arith

  pub equals_ieee_complete : (x y : ℕ) → form x ≡ form y → equals_ieee is_nan is_zero x y ≡ true
  unfolding equals_ieee ieee_equal canonical_ieee
  equals_ieee_complete x y h = ground arith

  hash_ieee-form :
      (size x seed : ℕ)
      → hash_ieee is_nan is_zero size (form x) seed ≡ hash_ieee is_nan is_zero size x seed
  unfolding hash_ieee canonical_ieee
  hash_ieee-form size x seed = ground arith

-- Values that compare equal have one canonical form.
pub equals_sound : (x y : Variant) → equals x y ≡ true → canonical x ≡ canonical y
unfolding equals canonical
equals_sound null null h = cc
equals_sound (string x) (string y) h = ap string (equals_string→eq x y h)
equals_sound (pointer p) (pointer q) h = ap pointer ((==_iff p q).0 h)
equals_sound (int32 x) (int32 y) h = ap int32 ((==_iff x y).0 h)
equals_sound (int64 x) (int64 y) h = ap int64 ((==_iff x y).0 h)
equals_sound (uint32 x) (uint32 y) h = ap uint32 ((==_iff x y).0 h)
equals_sound (uint64 x) (uint64 y) h = ap uint64 ((==_iff x y).0 h)
equals_sound (float x) (float y) h =
    ap float (equals_ieee_sound float_is_nan float_is_zero 0x7FC00000 refl refl refl x y h)
equals_sound (double x) (double y) h =
    ap double
      (equals_ieee_sound double_is_nan double_is_zero 0x7FF8000000000000 refl refl refl x y h)
equals_sound _ _ h = cc

-- Values with one canonical form compare equal, unless they are null.
pub equals_complete : (x y : Variant) → x ≢ null → canonical x ≡ canonical y → equals x y ≡ true
unfolding equals canonical
equals_complete null null n h = absurd (n refl)
equals_complete (string x) (string y) n h = let e : x ≡ y = cc in rw e (equals_string_refl y)
equals_complete (pointer p) (pointer q) n h = ground arith
equals_complete (int32 x) (int32 y) n h = ground arith
equals_complete (int64 x) (int64 y) n h = ground arith
equals_complete (uint32 x) (uint32 y) n h = ground arith
equals_complete (uint64 x) (uint64 y) n h = ground arith
equals_complete (float x) (float y) n h =
    equals_ieee_complete float_is_nan float_is_zero 0x7FC00000 refl refl refl x y (cc)
equals_complete (double x) (double y) n h =
    equals_ieee_complete double_is_nan double_is_zero 0x7FF8000000000000 refl refl refl x y (cc)
equals_complete _ _ n h = cc

-- Null compares equal to nothing.
pub equals-null : (y : Variant) → equals null y ≡ false
unfolding equals
equals-null null = refl
equals-null _ = refl

pub hash-canonical : (x : Variant) (seed : ℕ) → hash (canonical x) seed ≡ hash x seed
unfolding hash canonical
hash-canonical (float f) seed =
    hash_ieee-form float_is_nan float_is_zero 0x7FC00000 refl refl refl 4 f seed
hash-canonical (double d) seed =
    hash_ieee-form double_is_nan double_is_zero 0x7FF8000000000000 refl refl refl 8 d seed
hash-canonical _ seed = refl

equals-ne-null : (x y : Variant) → equals x y ≡ true → x ≢ null
equals-ne-null x y h e = let n : equals null y ≡ true = rw e at h in cc (equals-null y)

-- `__hashmap_variant_equals__` answers true exactly for non-null values of one canonical form.
pub equals_iff : (x y : Variant) → (equals x y ≡ true) ↔ ((x ≢ null) × (canonical x ≡ canonical y))
equals_iff x y = (λ h. (equals-ne-null x y h, equals_sound x y h), λ h. equals_complete x y h.0 h.1)

canonical-null : (x : Variant) → canonical x ≡ null → x ≡ null
unfolding canonical
canonical-null null h = refl
canonical-null _ h = cc

pub equals_symm : (x y : Variant) → equals x y ≡ true → equals y x ≡ true
equals_symm x y h =
    let same = equals_sound x y h in
    equals_complete y x
      (λ e.
        equals-ne-null x y h
          (canonical-null x (same ∙ ap canonical e ∙ (unfold canonical in refl))))
      (sym same)

pub equals_trans : (x y z : Variant) → equals x y ≡ true → equals y z ≡ true → equals x z ≡ true
equals_trans x y z h k =
    equals_complete x z (equals-ne-null x y h) (equals_sound x y h ∙ equals_sound y z k)

pub equals_refl : (x : Variant) → is_key x ≡ true → equals x x ≡ true
equals_refl x h =
    equals_complete x x (λ e. let n : is_key null ≡ true = rw e at h in unfold is_key in cc) refl

-- A key may be replaced by an equal one on either side of a comparison.
pub equals_congr_right : (x y z : Variant) → equals y z ≡ true → equals x y ≡ equals x z
equals_congr_right x y z h = ground (arith, equals_trans x y z, equals_trans x z y, equals_symm y z)

pub equals_congr_left : (x y z : Variant) → equals x y ≡ true → equals x z ≡ equals y z
equals_congr_left x y z h = ground (arith, equals_trans x y z, equals_trans y x z, equals_symm x y)

-- Equal keys have equal hashes, under every seed: also the two zeros, and all NaN values.
pub hash-equals : (x y : Variant) (seed : ℕ) → equals x y ≡ true → hash x seed ≡ hash y seed
hash-equals x y seed h =
    sym (hash-canonical x seed) ∙ ap (λ v. hash v seed) (equals_sound x y h) ∙ hash-canonical y seed
