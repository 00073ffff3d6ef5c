-- ===== src/HashMap/Chain.antt =====
-- `_HashMapNode` of hashmap.h: a chain of nodes, with the searches that the functions of hashmap.c
-- run on it, each as a function of its own.
pub mod Laws
use stdc.HashMap.Variant.{Variant, hash, equals, is_key}
use stdc.Prelude.{
  ℕ, ◌+◌, ◌≡◌, Bool, true, false, Option, none, some, List, [], ◌∷◌, if◌then◌else◌, All,
}

-- `next` is the tail of the list.
pub record Node : Type 0 where
  pub hash : ℕ
  pub key : Variant
  pub value : Variant

abbrev pub Chain : Type 0
Chain = List Node

-- `&node->value` at the first match
unfoldable pub find : Variant → Chain → Option Variant
find k [] = none
find k (node ∷ c) = if equals node.key k then some node.value else find k c

-- `node->value = var` at the first match
unfoldable pub assign : Variant → Variant → Chain → Chain
assign k v [] = []
assign k v (node ∷ c) =
    if equals node.key k then record node { value = v } ∷ c else node ∷ assign k v c

-- `*indirect = target->next` at the first match
unfoldable pub unlink : Variant → Chain → Chain
unlink k [] = []
unlink k (node ∷ c) = if equals node.key k then c else node ∷ unlink k c

abbrev pub to_nat : Bool → ℕ
to_nat true = 1
to_nat false = 0

-- How many nodes match a key.
unfoldable pub count : Variant → Chain → ℕ
count k [] = 0
count k (node ∷ c) = to_nat (equals node.key k) + count k c

-- Every node has a proper key and caches its hash.
abbrev pub IsHashed : ℕ → Chain → Type 0
IsHashed seed = All λ (node : Node). (node.hash ≡ hash node.key seed) × (is_key node.key ≡ true)
