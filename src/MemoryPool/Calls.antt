-- ===== src/MemoryPool/Calls.antt =====
-- What `memorypool_create` and `memorypool_free` promise, the latter also for the next allocation.
use stdc.MemoryPool.Owners.{nobody, idle, live, Owners, mark, tag, extent}
use stdc.MemoryPool.Space.{Apart}
use stdc.MemoryPool.Owned.{Owned, push-Owned}
use stdc.MemoryPool.{
  Heap, Meta, MemoryPool, manager, blocks, create_metas, create, class_of, no_meta, pop_block,
  alloc, push_block, free,
}
use stdc.Prelude.{
  ℕ, zero, suc, ◌+◌, ◌-◌, ◌<◌, ◌≡◌, ◌≢◌, refl, sym, ap, ◌∙◌, subst, true, false, some, [], arith,
  leb, ◌==◌, get_or, get_or-set_self,
}
use stdc.MemoryPool.Alloc.{class_of-lt}

free_lem :
    {pool : MemoryPool} {own : Owners} (x i : ℕ)
    → i < 8
    → own x ≡ live i
    → Owned pool own
    → free pool (x + 16) ≡ push_block pool i x
unfolding free tag
free_lem {pool} {own} x i h e o =
    let back : x + 16 - 16 ≡ x = omega arith in
    let header : pool.heap (x + 16 - 16) ≡ i =
      ap pool.heap back ∙ o.headers.header x i (ap tag e) in
    let a : (x + 16 == 0) ≡ false = ground arith in
    let b : (i == 0xff) ≡ false = ground arith in
    let c : leb 8 i ≡ false = ground arith in rw (a, header, b, c) (ap (push_block pool i) back)

-- On a pool in good order, `memorypool_free` takes a block in use of one of the eight sizes back:
-- afterwards the list of its size has it, with every other free block of the size, each block of the
-- program is still with it, and the pool is in good order.
pub free-Owned :
    {pool : MemoryPool} {own : Owners} (x i : ℕ)
    → i < 8
    → own x ≡ live i
    → Owned pool own
    → Owned (free pool (x + 16)) (mark own x (idle i))
free-Owned {pool} {own} x i h e o =
    subst (λ p. Owned p (mark own x (idle i))) (sym (free_lem x i h e o)) (push-Owned i x h e o)

-- On a pool in good order, the block that `memorypool_free` took back is the one that the next
-- request for its size gets, whatever `malloc` would answer.
pub alloc-free :
    {pool : MemoryPool} {own : Owners} (x i size answer : ℕ)
    → own x ≡ live i
    → Owned pool own
    → size ≢ 0
    → class_of size manager 0 ≡ some i
    → (alloc (free pool (x + 16)) size answer).0 ≡ x + 16
unfolding alloc pop_block push_block tag
alloc-free {pool} {own} x i size answer e o n found =
    let h = class_of-lt size i found in
    let positive = o.headers.positive x i (ap tag e) in
    let something : (size == 0) ≡ false = ground arith in
    let stored =
      get_or-set_self pool.memory i (record (get_or pool.memory i no_meta) { free_list = x })
        no_meta (omega (arith, o.eight)) in
    let stocked : (x == 0) ≡ false = ground arith in
    let claim : (alloc (push_block pool i x) size answer).0 ≡ x + 16 =
      rw (something, found, stored, stocked) refl in
    ap (λ p. (alloc p size answer).0) (free_lem x i h e o) ∙ claim

abbrev IsNew : ℕ → Meta → Type 0
IsNew i m = (m.block_size ≡ 16 + get_or manager i 0) × (0 < m.block_per_chunk) × (m.free_list ≡ 0)

create_metas-IsNew : (i : ℕ) → i < 8 → IsNew i (get_or (create_metas manager blocks) i no_meta)
unfolding create_metas
create_metas-IsNew zero h = (refl, omega arith, refl)
create_metas-IsNew (suc zero) h = (refl, omega arith, refl)
create_metas-IsNew (suc (suc zero)) h = (refl, omega arith, refl)
create_metas-IsNew (suc (suc (suc zero))) h = (refl, omega arith, refl)
create_metas-IsNew (suc (suc (suc (suc zero)))) h = (refl, omega arith, refl)
create_metas-IsNew (suc (suc (suc (suc (suc zero))))) h = (refl, omega arith, refl)
create_metas-IsNew (suc (suc (suc (suc (suc (suc zero)))))) h = (refl, omega arith, refl)
create_metas-IsNew (suc (suc (suc (suc (suc (suc (suc zero))))))) h = (refl, omega arith, refl)
create_metas-IsNew (suc (suc (suc (suc (suc (suc (suc (suc i)))))))) h = absurd (omega arith)

-- `memorypool_create`, if `malloc` grants its request, makes a pool in good order in which no
-- block is in use.
pub create-Owned :
    (heap : Heap) (pool : MemoryPool) → create true heap ≡ some pool → Owned pool (λ _. nobody)
unfolding create create_metas tag extent Apart
create-Owned heap pool e =
    let made : pool ≡ record { heap = heap; memory = create_metas manager blocks } = ground arith in
    let new = create_metas-IsNew in
    rw made record {
      eight = refl;
      sized = λ i h. (new i h).0;
      filled = λ i h. (new i h).1;
      lists = λ i h. record {
        blocks = [];
        linked = (new i h).2;
        apart = tt;
        owned = tt;
        every = λ x f. absurd (ground arith);
      };
      headers = record { header = λ x t f. absurd (cc f); positive = λ x t f. absurd (cc f) };
      apart = λ x y l n. absurd (n refl);
    }
