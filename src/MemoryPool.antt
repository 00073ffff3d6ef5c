-- ===== src/MemoryPool.antt =====
-- memorypool.c and memorypool.h: blocks of eight sizes out of larger chunks. The free blocks of a
-- size are linked through their own first word, which holds the size's index while a block is in
-- use, so that memory is modelled: `heap` is the word at each address. Addresses are numbers, 0 the
-- null pointer. `malloc` is not under the program's control: a call gets its answer as an argument.
pub mod Sizes
pub mod Owners
pub mod Space
pub mod Free
pub mod Carve
pub mod Owned
pub mod Alloc
pub mod Calls
use stdc.Prelude.{
  ℕ, zero, suc, ◌+◌, ◌-◌, ◌*◌, Bool, Option, none, some, List, [], ◌∷◌, leb, ◌==◌, if◌then◌else◌,
  get_or, set,
}

abbrev pub Heap : Type 0
Heap = ℕ → ℕ

-- `_MemoryPoolMeta`, but for its lock.
pub record Meta : Type 0 where
  pub block_size : ℕ
  pub block_per_chunk : ℕ
  pub chunk_list : ℕ
  pub free_list : ℕ

pub record MemoryPool : Type 0 where
  pub heap : Heap
  pub memory : List Meta

abbrev pub manager : List ℕ
manager = 32 ∷ 64 ∷ 128 ∷ 256 ∷ 512 ∷ 1024 ∷ 2048 ∷ 4096 ∷ []

abbrev pub blocks : List ℕ
blocks = 1024 ∷ 512 ∷ 256 ∷ 128 ∷ 64 ∷ 32 ∷ 16 ∷ 8 ∷ []

-- `*a = v`
unfoldable pub write : Heap → ℕ → ℕ → Heap
write heap a v x = if x == a then v else heap x

-- The loop of `memorypool_create`, with a header of 16 bytes for each block.
unfoldable pub create_metas : List ℕ → List ℕ → List Meta
create_metas (m ∷ ms) (b ∷ bs) =
    record { block_size = m + 16; block_per_chunk = b; chunk_list = 0; free_list = 0 }
    ∷ create_metas ms bs
create_metas _ _ = []

unfoldable pub create : Bool → Heap → Option MemoryPool
create malloc heap =
    if malloc then some (record { heap = heap; memory = create_metas manager blocks }) else none

-- The search loop of `memorypool_alloc`, from index `i` on.
unfoldable pub class_of : ℕ → List ℕ → ℕ → Option ℕ
class_of size [] i = none
class_of size (m ∷ ms) i = if leb size m then some i else class_of size ms (i + 1)

-- The loop that links the blocks of a new chunk, for `n` rounds from `i` on.
unfoldable pub carve : ℕ → ℕ → ℕ → ℕ → Heap → ℕ → Heap × ℕ
carve zero i start size heap free_list = (heap, free_list)
carve (suc n) i start size heap free_list =
    let block = start + i * size in carve n (i + 1) start size (write heap block free_list) block

abbrev pub no_meta : Meta
no_meta = record { block_size = 0; block_per_chunk = 0; chunk_list = 0; free_list = 0 }

-- A new chunk at an address that `malloc` returned.
unfoldable pub refill : MemoryPool → ℕ → ℕ → MemoryPool
refill pool idx chunk =
    let p = get_or pool.memory idx no_meta in
    let (heap, free_list) =
      carve p.block_per_chunk 0 (chunk + 16) p.block_size (write pool.heap chunk p.chunk_list)
        p.free_list in
    record {
      heap = heap;
      memory = set pool.memory idx (record p { chunk_list = chunk; free_list = free_list });
    }

-- The first free block leaves its list and gets its header.
unfoldable pub pop_block : MemoryPool → ℕ → ℕ × MemoryPool
pop_block pool idx =
    let p = get_or pool.memory idx no_meta in
    let block = p.free_list in
    (
      block + 16,
      record {
        heap = write pool.heap block idx;
        memory = set pool.memory idx (record p { free_list = pool.heap block });
      },
    )

-- `memorypool_alloc`: the address, or 0, and the pool. `answer` is what the one call of `malloc`
-- returns that it may make.
unfoldable pub alloc : MemoryPool → ℕ → ℕ → ℕ × MemoryPool
alloc pool size answer = if size == 0 then (0, pool) else (elim (class_of size manager 0) [
  | none ↦
      if answer == 0
      then (0, pool)
      else (answer + 16, record pool { heap = write pool.heap answer 0xff })
  | some idx ↦
      if (get_or pool.memory idx no_meta).free_list == 0
      then (if answer == 0 then (0, pool) else pop_block (refill pool idx answer) idx)
      else pop_block pool idx
])

-- A block goes back to the front of its list.
unfoldable pub push_block : MemoryPool → ℕ → ℕ → MemoryPool
push_block pool idx block =
    let p = get_or pool.memory idx no_meta in
    record {
      heap = write pool.heap block p.free_list;
      memory = set pool.memory idx (record p { free_list = block });
    }

-- `memorypool_free`; memory that came from `malloc` goes back to it.
unfoldable pub free : MemoryPool → ℕ → MemoryPool
free pool ptr =
    if ptr == 0
    then pool
    else (let allocator = ptr - 16 in
        let idx = pool.heap allocator in
        if idx == 0xff then pool else if leb 8 idx then pool else push_block pool idx allocator)
