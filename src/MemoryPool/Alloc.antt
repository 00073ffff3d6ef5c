-- ===== src/MemoryPool/Alloc.antt =====
-- What `memorypool_alloc` hands out.
use stdc.MemoryPool.Owners.{Owner, live, large, Owners, tag}
use stdc.MemoryPool.Owned.{Owned}
use stdc.MemoryPool.Sizes.{IsLeastClass, class_of-IsLeastClass}
use stdc.MemoryPool.{MemoryPool, manager, class_of}
use stdc.Prelude.{ℕ, ◌-◌, ◌<◌, ◌≡◌, subst, Option, none, some}

-- Whose a piece of memory is that serves a request, by the least size that has room for it.
unfoldable pub served : ℕ → Option ℕ → Owner
served size none = large size
served size (some i) = live i

-- A piece of memory that was handed out: it serves the request, from the least size of blocks that
-- has room for it; the program did not have it and has it now; and the program keeps all that it had.
-- In the memory afterwards no two pieces overlap, which is a part of `Owned`.
pub record Granted (own : Owners) (size : ℕ) (after : MemoryPool) (ptr : ℕ) : Type 0 where
  pub own' : Owners
  pub owned : Owned after own'
  pub size_class : Option ℕ
  pub least : IsLeastClass size manager size_class
  pub mine : own' (ptr - 16) ≡ served size size_class
  pub unused : tag (own (ptr - 16)) ≡ none
  pub kept : (x t : ℕ) → tag (own x) ≡ some t → own' x ≡ own x

pub class_of-lt : (size i : ℕ) → class_of size manager 0 ≡ some i → i < 8
unfolding IsLeastClass
class_of-lt size i e = (subst (IsLeastClass size manager) e (class_of-IsLeastClass size manager)).0
