-- ===== src/Tests/MemoryPools.antt =====
-- The memory pool of memorypool.c: a new one, and one with a block in use.
use stdc.MemoryPool.Calls.{create-Owned, free-Owned}
use stdc.MemoryPool.Free.{IsFree-mark}
use stdc.MemoryPool.Owners.{nobody, idle, live, Owners, mark, mark_self, tag, extent, Headers-live}
use stdc.MemoryPool.Space.{Clear, Apart-mark}
use stdc.MemoryPool.Owned.{Owned, Fresh}
use stdc.MemoryPool.{
  Heap, MemoryPool, manager, blocks, write, create_metas, create, class_of, carve, refill,
  pop_block, alloc, push_block, free,
}
use stdc.Prelude.{inl, ℕ, ◌+◌, ◌≡◌, refl, true, some, arith}

program : Unit {0}
unfolding write create_metas create class_of carve refill pop_block alloc push_block free
program = tt

abbrev zeros : Heap
zeros = λ _. 0

abbrev empty : MemoryPool
empty = record { heap = zeros; memory = create_metas manager blocks }

creates : create true zeros ≡ some empty
unfolding program
creates = refl

empty-Owned : Owned empty (λ _. nobody)
empty-Owned = create-Owned zeros empty creates

fresh : (a n : ℕ) → Fresh (λ _. nobody) a n
unfolding Fresh Clear
fresh a n = λ x. inl refl

abbrev forty : ℕ
forty = 40

abbrev answer : ℕ
answer = 100000

-- The last block of the new chunk is handed out first.
allocated :
    (alloc empty 4000 100000).0 ≡ 100000 + 16 + 4112 + 4112 + 4112 + 4112 + 4112 + 4112 + 4112 + 16
unfolding program
allocated = refl

-- A block of 64 bytes is in use.
abbrev own : Owners
own = mark (λ _. nobody) 5000 (live 1)

abbrev used : MemoryPool
used = record empty { heap = write zeros 5000 1 }

used-Owned : Owned used own
unfolding Fresh
used-Owned = record {
  eight = empty-Owned.eight;
  sized = empty-Owned.sized;
  filled = empty-Owned.filled;
  lists = λ j l.
      IsFree-mark 5000 1 (live 1) (λ e. absurd (ground arith)) (λ e. absurd (ground arith))
        (empty-Owned.lists j l);
  headers = Headers-live 5000 1 (live 1) (unfold tag in refl) (omega arith) empty-Owned.headers;
  apart =
      Apart-mark (λ _. nobody) 5000 (5000 + 80) (live 1) (fresh 5000 80)
        (unfold extent in omega arith) empty-Owned.apart;
}

free-Owned_example : Owned (free used (5000 + 16)) (mark own 5000 (idle 1))
free-Owned_example =
    free-Owned 5000 1 (omega arith) (mark_self (λ _. nobody) 5000 (live 1)) used-Owned

found : class_of 50 manager 0 ≡ some 1
unfolding program
found = refl
