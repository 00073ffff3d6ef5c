-- ===== src/HashMap/Chain/Laws.antt =====
-- What the searches of a chain do to lookups, match counts, lengths and cached hashes.
use mathlib.Core.Option.{or_else}
use stdc.HashMap.Variant.Laws.{equals_congr_left, equals_congr_right}
use stdc.HashMap.Variant.{Variant, equals}
use stdc.HashMap.Chain.{Chain, find, assign, unlink, count, IsHashed}
use stdc.Prelude.{
  ℕ, ◌+◌, ◌≤◌, ◌≡◌, refl, true, none, some, [], ◌∷◌, ◌++◌, arith, if◌then◌else◌, length,
}

pub find-eq-none : (q : Variant) (c : Chain) → count q c ≡ 0 → find q c ≡ none
unfolding find count
find-eq-none q [] h = refl
find-eq-none q (node ∷ c) h = ground (arith, find-eq-none q c)

pub count-eq-zero :
    (k q : Variant) (c : Chain) → find k c ≡ none → equals k q ≡ true → count q c ≡ 0
unfolding find count
count-eq-zero k q [] h same = refl
count-eq-zero k q (node ∷ c) h same =
    ground (arith, count-eq-zero k q c, equals_congr_right node.key k q)

pub find-append : (q : Variant) (a b : Chain) → find q (a ++ b) ≡ or_else (find q a) (find q b)
unfolding find or_else
find-append q [] b = refl
find-append q (node ∷ a) b = ground (arith, find-append q a b)

pub count-append : (q : Variant) (a b : Chain) → count q (a ++ b) ≡ count q a + count q b
unfolding count
count-append q [] b = omega arith
count-append q (node ∷ a) b = omega (arith, count-append q a b)

pub find-assign :
    (k q v : Variant) (c : Chain) (old : Variant)
    → find k c ≡ some old
    → find q (assign k v c) ≡ (if equals k q then some v else find q c)
unfolding find assign
find-assign k q v [] old h = cc
find-assign k q v (node ∷ c) old h = ground (
  arith,
  find-assign k q v c old,
  equals_congr_right node.key k q,
  equals_congr_left node.key k q,
)

pub count-assign : (k q v : Variant) (c : Chain) → count q (assign k v c) ≡ count q c
unfolding count assign
count-assign k q v [] = refl
count-assign k q v (node ∷ c) = ground (arith, count-assign k q v c)

pub length-assign : (k v : Variant) (c : Chain) → length (assign k v c) ≡ length c
unfolding assign
length-assign k v [] = refl
length-assign k v (node ∷ c) = ground (arith, length-assign k v c)

pub assign-IsHashed :
    (seed : ℕ) (k v : Variant) (c : Chain) → IsHashed seed c → IsHashed seed (assign k v c)
unfolding assign
assign-IsHashed seed k v [] h = tt
assign-IsHashed seed k v (node ∷ c) h = ground (arith, assign-IsHashed seed k v c h.1)

pub find-unlink :
    (k q : Variant) (c : Chain)
    → count q c ≤ 1
    → find q (unlink k c) ≡ (if equals k q then none else find q c)
unfolding find unlink count
find-unlink k q [] h = ground arith
find-unlink k q (node ∷ c) h = ground (
  arith,
  find-unlink k q c,
  find-eq-none q c,
  equals_congr_right node.key k q,
  equals_congr_left node.key k q,
)

pub count-unlink-le : (k q : Variant) (c : Chain) → count q (unlink k c) ≤ count q c
unfolding count unlink
count-unlink-le k q [] = omega arith
count-unlink-le k q (node ∷ c) = ground (arith, count-unlink-le k q c)

pub length-unlink :
    (k : Variant) (c : Chain) (old : Variant)
    → find k c ≡ some old
    → length (unlink k c) + 1 ≡ length c
unfolding find unlink
length-unlink k [] old h = cc
length-unlink k (node ∷ c) old h = ground (arith, length-unlink k c old)

pub unlink-IsHashed :
    (seed : ℕ) (k : Variant) (c : Chain) → IsHashed seed c → IsHashed seed (unlink k c)
unfolding unlink
unlink-IsHashed seed k [] h = tt
unlink-IsHashed seed k (node ∷ c) h = ground (arith, unlink-IsHashed seed k c h.1)

pub append-IsHashed :
    (seed : ℕ) (a b : Chain) → IsHashed seed a → IsHashed seed b → IsHashed seed (a ++ b)
append-IsHashed seed [] b h k = k
append-IsHashed seed (node ∷ a) b h k = (h.0, append-IsHashed seed a b h.1 k)
