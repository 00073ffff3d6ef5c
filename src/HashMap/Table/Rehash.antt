-- ===== src/HashMap/Table/Rehash.antt =====
-- `__hashmap_resize__` moves every node and changes no lookup.
use mathlib.Core.List.{flatten}
use mathlib.Core.Option.{or_else}
use stdc.HashMap.Chain.Laws.{find-eq-none, find-append, count-append, append-IsHashed}
use stdc.HashMap.Chain.{Node, Chain, find, count, IsHashed}
use stdc.HashMap.Table.Buckets.{IsSize, home, IsPlaced, view, Holds, push_front-Holds}
use stdc.HashMap.Table.{push_front, rehash_chain, rehash}
use stdc.HashMap.Variant.Laws.{equals_refl}
use stdc.HashMap.Variant.{Variant, null}
use stdc.Prelude.{
  ℕ, zero, suc, ◌+◌, ◌≤◌, ◌<◌, ◌≡◌, ◌≢◌, refl, sym, ap, ◌∙◌, Option, none, List, [], ◌∷◌, ◌++◌,
  arith, length, get_or, replicate, length-replicate, get_or-replicate,
}

rehash_chain-append :
    (n : ℕ) (a b : Chain) (fresh : List Chain)
    → rehash_chain n (a ++ b) fresh ≡ rehash_chain n b (rehash_chain n a fresh)
unfolding rehash_chain
rehash_chain-append n [] b fresh = refl
rehash_chain-append n (node ∷ a) b fresh = rehash_chain-append n a b _

-- The nested loops are one loop over all nodes.
rehash-flatten :
    (n : ℕ) (table fresh : List Chain) → rehash n table fresh ≡ rehash_chain n (flatten table) fresh
unfolding rehash flatten
rehash-flatten n [] fresh = unfold rehash_chain in refl
rehash-flatten n (c ∷ table) fresh =
    rehash-flatten n table _ ∙ sym (rehash_chain-append n c (flatten table) fresh)

count-flatten_nowhere :
    (q : Variant) (table : List Chain)
    → ((i : ℕ) → count q (get_or table i []) ≡ 0)
    → count q (flatten table) ≡ 0
unfolding flatten count
count-flatten_nowhere q [] h = refl
count-flatten_nowhere q (c ∷ table) h =
    omega
      (arith, count-append q c (flatten table), h 0, count-flatten_nowhere q table (λ i. h (suc i)))

-- If only bucket `j` can hold matches, all nodes together read as that bucket.
flatten-bucket :
    (q : Variant) (table : List Chain) (j : ℕ)
    → ((i : ℕ) → i ≢ j → count q (get_or table i []) ≡ 0)
    → (find q (flatten table) ≡ find q (get_or table j []))
      × (count q (flatten table) ≡ count q (get_or table j []))
unfolding flatten or_else
flatten-bucket q [] j h = (refl, refl)
flatten-bucket q (c ∷ table) zero h =
    let rest = count-flatten_nowhere q table (λ i. h (suc i) (omega arith)) in
    let silent = find-eq-none q (flatten table) rest in
    (rw (find-append, silent) (ground arith), omega (arith, count-append q c (flatten table), rest))
flatten-bucket q (c ∷ table) (suc j) h =
    let here = h 0 (omega arith) in
    let (found, counted) = flatten-bucket q table j (λ i away. h (suc i) (omega arith)) in
    (
      rw (find-append, find-eq-none q c here) found,
      omega (arith, count-append q c (flatten table), here, counted),
    )

flatten-IsHashed :
    (seed : ℕ) (table : List Chain)
    → ((i : ℕ) → IsHashed seed (get_or table i []))
    → IsHashed seed (flatten table)
unfolding flatten
flatten-IsHashed seed [] h = tt
flatten-IsHashed seed (c ∷ table) h =
    append-IsHashed seed c (flatten table) (h 0) (flatten-IsHashed seed table (λ i. h (suc i)))

flatten-replicate : (n : ℕ) → flatten {A = Node} (replicate n []) ≡ []
unfolding flatten replicate
flatten-replicate zero = refl
flatten-replicate (suc n) = flatten-replicate n

abbrev pub Reading : Type 0
Reading = Variant → Option Variant

-- What is in the new table, and else in the chain that is still to be moved.
abbrev joined : Reading → Chain → Reading
joined f c q = or_else (f q) (find q c)

module _ (seed n : ℕ) (size : IsSize n) where
  rehash_chain-Holds :
      (c : Chain) (fresh : List Chain)
      → length fresh ≡ n
      → IsPlaced seed n fresh
      → IsHashed seed c
      → ((q : Variant) → count q c ≤ 1)
      → ((q : Variant) → 0 < count q c → view seed n fresh q ≡ none)
      → Holds seed n
          (length (flatten fresh) + length c)
          (joined (view seed n fresh) c)
          (rehash_chain n c fresh)
  unfolding rehash_chain count find or_else
  rehash_chain-Holds [] fresh width placed hashed once apart = record {
    width = width;
    nodes = omega arith;
    placed = placed;
    reads = λ q. ground arith;
  }
  rehash_chain-Holds (node ∷ c) fresh width placed hashed once apart =
      let own = equals_refl node.key hashed.0.1 in
      let absent = apart node.key (rw own (omega arith)) in
      let step = push_front-Holds seed n node fresh size width placed hashed.0 absent in
      let rest =
        rehash_chain-Holds c (push_front node n fresh) step.width step.placed hashed.1
          (λ q. omega (arith, once q))
          (λ q some_in. ground (arith, step.reads q, once q, apart q)) in
      record {
        width = rest.width;
        nodes = omega arith;
        placed = rest.placed;
        reads = λ q. ground (arith, rest.reads q, step.reads q, apart q);
      }

  -- The table that `calloc` gives.
  pub replicate-Holds : Holds seed n 0 (λ _. none) (replicate n [])
  unfolding view count find
  replicate-Holds = record {
    width = length-replicate n [];
    nodes = ap length (flatten-replicate n);
    placed = λ q i. rw get_or-replicate (omega arith, λ _. refl, tt);
    reads = λ q. rw get_or-replicate;
  }

-- A placed table, moved into `m` fresh buckets, reads as before.
pub rehash-Holds :
    (seed n m total : ℕ) (f : Reading) (table : List Chain)
    → IsSize m
    → Holds seed n total f table
    → Holds seed m total f (rehash m table (replicate m []))
unfolding or_else view
rehash-Holds seed n m total f table size t =
    let start = replicate-Holds seed m size in
    let all = λ (q : Variant).
      flatten-bucket q table (home seed n q) (λ i away. (t.placed q i).1 (λ e. away (sym e))) in
    let moved =
      rehash_chain-Holds seed m size (flatten table) (replicate m []) start.width start.placed
        (flatten-IsHashed seed table (λ i. (t.placed null i).2))
        (λ q. omega (arith, (all q).1, (t.placed q (home seed n q)).0)) (λ q _. start.reads q) in
    rw rehash-flatten (record {
      width = moved.width;
      nodes = omega arith;
      placed = moved.placed;
      reads = λ q. rw (moved.reads q, start.reads q) ((all q).0 ∙ t.reads q);
    })

-- A table with no node reads as the empty map.
pub empty-reads :
    (seed n : ℕ) (f : Reading) (table : List Chain)
    → Holds seed n 0 f table
    → (q : Variant) → f q ≡ none
unfolding view find
empty-reads seed n f table t q =
    let all =
      flatten-bucket q table (home seed n q) (λ i away. (t.placed q i).1 (λ e. away (sym e))) in
    sym (t.reads q) ∙ sym all.0 ∙ find_nowhere (flatten table) t.nodes
  where
    find_nowhere : (c : Chain) → length c ≡ 0 → find q c ≡ none
    find_nowhere [] h = refl
    find_nowhere (node ∷ c) h = absurd (omega arith)
