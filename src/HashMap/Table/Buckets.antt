-- ===== src/HashMap/Table/Buckets.antt =====
-- Where nodes stand, and what the buckets mean as a map from keys to values.
use mathlib.Core.List.{flatten}
use native.Mathlib.Decide.{ℕ_discrete}
use stdc.HashMap.Chain.Laws.{find-eq-none, count-eq-zero}
use stdc.HashMap.Chain.{Node, Chain, find, to_nat, count, IsHashed}
use stdc.HashMap.Table.{index, chain_at, push_front}
use stdc.HashMap.Variant.Laws.{hash-equals}
use stdc.HashMap.Variant.{Variant, hash, equals, is_key}
use stdc.Prelude.Bits.{bit_and-le}
use stdc.Prelude.{
  ℕ, zero, suc, ◌+◌, ◌-◌, ◌%◌, ◌≤◌, ◌<◌, ◌^◌, ◌≡◌, ◌≢◌, sym, ap, subst, ◌∙◌, true, Option, none,
  some, List, [], ◌∷◌, arith, max, if◌then◌else◌, length, get_or, set, length-append, length-set,
  get_or-set_self, get_or-set_ne,
}

-- A bucket table has a size that fits its mask.
abbrev pub IsSize : ℕ → Type 0
IsSize n = (0 < n) × (n < 2 ^ 64)

pub index-lt : (h n : ℕ) → IsSize n → index h n < n
unfolding index
index-lt h n s = omega (arith, bit_and-le h ((n + (2 ^ 64 - 1)) % 2 ^ 64))

length-flatten-set :
    (table : List Chain) (i : ℕ) (c : Chain)
    → i < length table
    → length (flatten (set table i c)) + length (get_or table i [])
      ≡ length (flatten table) + length c
unfolding flatten
length-flatten-set [] i c h = absurd (omega arith)
length-flatten-set (x ∷ table) zero c h = simp length-append (omega arith)
length-flatten-set (x ∷ table) (suc i) c h =
    simp length-append (omega (arith, length-flatten-set table i c (omega arith)))

module _ (seed n : ℕ) where
  unfoldable pub home : Variant → ℕ
  home q = index (hash q seed) n

  -- A key matches at most one node, in its home bucket; every cached hash is right.
  abbrev pub IsPlaced : List Chain → Type 0
  IsPlaced table =
      (q : Variant) (i : ℕ)
      → (count q (get_or table i []) ≤ 1)
        × (home q ≢ i → count q (get_or table i []) ≡ 0)
        × IsHashed seed (get_or table i [])

  -- What a lookup of `q` in its home bucket finds.
  unfoldable pub view : List Chain → Variant → Option Variant
  view table q = find q (get_or table (home q) [])

  -- `table` has `n` buckets and `total` nodes, all in place, and reads as `f`.
  pub record Holds (total : ℕ) (f : Variant → Option Variant) (table : List Chain) : Type 0 where
    pub width : length table ≡ n
    pub nodes : length (flatten table) ≡ total
    pub placed : IsPlaced table
    pub reads : (q : Variant) → view table q ≡ f q

-- The map `f` with `v` at every key that equals `k`.
abbrev pub put : (Variant → Option Variant) → Variant → Option Variant → Variant → Option Variant
put f k v q = if equals k q then v else f q

module _ (seed n : ℕ) where
  home_congr : (a b : Variant) → equals a b ≡ true → home seed n a ≡ home seed n b
  unfolding home
  home_congr a b h = ap (λ x. index x n) (hash-equals a b seed h)

  pub home-lt : (q : Variant) → IsSize n → home seed n q < n
  unfolding home
  home-lt q size = index-lt (hash q seed) n size

  module _ (table : List Chain) (size : IsSize n) (width : length table ≡ n)
      (placed : IsPlaced seed n table) (k : Variant) where
    -- Every write replaces the home chain of one key.
    -- (by a new value, a shorter chain, or a chain with one more node).
    pub set-Holds :
        (v : Option Variant) (c : Chain) (total : ℕ)
        → (let old = get_or table (home seed n k) [] in
            (total + length old ≡ length (flatten table) + length c)
            × ((q : Variant) → count q c ≤ max (to_nat (equals k q)) (count q old))
            × ((q : Variant) → find q c ≡ (if equals k q then v else find q old)))
        → IsHashed seed c
        → Holds seed n total (put (view seed n table) k v) (set table (home seed n k) c)
    unfolding view
    set-Holds v c total (sizes, few, reads) hashed =
        let i = home seed n k in
        let inside : i < length table = rw width (home-lt k size) in
        record {
          width = length-set table i c ∙ width;
          nodes = omega (arith, length-flatten-set table i c inside);
          placed = λ q j. elim (ℕ_discrete i j) [
            | yes here ↦
                rw (← here, get_or-set_self table i c [] inside)
                  (
                    ground (arith, few q, placed q i),
                    λ away. ground (arith, few q, placed q i, home_congr k q),
                    hashed,
                  )
            | no there ↦ rw (get_or-set_ne table i j c [] there) (placed q j)
          ];
          reads = λ q. elim (ℕ_discrete i (home seed n q)) [
            | yes here ↦ rw (← here, get_or-set_self table i c [] inside) (reads q)
            | no there ↦
                rw (get_or-set_ne table i (home seed n q) c [] there)
                  (ground (arith, home_congr k q))
          ];
        }

  -- A node at the head of its home chain, for a key that was absent.
  pub push_front-Holds :
      (node : Node) (table : List Chain)
      → IsSize n
      → length table ≡ n
      → IsPlaced seed n table
      → (node.hash ≡ hash node.key seed) × (is_key node.key ≡ true)
      → view seed n table node.key ≡ none
      → Holds seed n
          (length (flatten table) + 1)
          (put (view seed n table) node.key (some node.value))
          (push_front node n table)
  unfolding push_front chain_at view count find home
  push_front-Holds node table size width placed hashed absent =
      let k = node.key in
      let old = get_or table (home seed n k) [] in
      let t =
        set-Holds table size width placed k (some node.value) (node ∷ old)
          (length (flatten table) + 1)
          (
            omega arith,
            λ q. ground (arith, count-eq-zero k q old),
            λ q. ground (arith, count-eq-zero k q old, find-eq-none q old),
          )
          (hashed, (placed k (home seed n k)).2) in
      subst
        (λ h.
          Holds seed n (length (flatten table) + 1) (put (view seed n table) k (some node.value))
            (set table (index h n) (node ∷ get_or table (index h n) [])))
        (sym hashed.0) t

-- A table reads as any map with the same values.
pub Holds-ext :
    {seed n total total' : ℕ} {f g : Variant → Option Variant} {table : List Chain}
    → Holds seed n total f table
    → total ≡ total'
    → ((q : Variant) → f q ≡ g q)
    → Holds seed n total' g table
Holds-ext t counted same = record {
  width = t.width;
  nodes = t.nodes ∙ counted;
  placed = t.placed;
  reads = λ q. t.reads q ∙ same q;
}
