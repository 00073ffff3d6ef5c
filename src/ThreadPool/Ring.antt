-- ===== src/ThreadPool/Ring.antt =====
-- The ring of tasks in threadpool.c: `queue` with `queue_head`, `queue_tail` and `queue_capacity`.
pub mod Laws
use stdc.Prelude.{ℕ, zero, suc, ◌+◌, List, [], ◌∷◌, ◌==◌, if◌then◌else◌, get_or, set}

-- A function is a number that tells it from the others; 0 is the null pointer.
pub record Task : Type 0 where
  pub func : ℕ
  pub args : ℕ
  pub cleanup : ℕ

-- What `calloc` leaves in the queue.
abbrev pub zeroed : Task
zeroed = record { func = 0; args = 0; cleanup = 0 }

-- `if (++index == pool->queue_capacity) index = 0;`
unfoldable pub next : ℕ → ℕ → ℕ
next capacity index = if index + 1 == capacity then 0 else index + 1

-- The loop of `threadpool_add_batch` that copies the tasks into the ring.
unfoldable pub store_tasks : ℕ → List Task → List Task → ℕ → List Task × ℕ
store_tasks capacity [] queue tail = (queue, tail)
store_tasks capacity (task ∷ tasks) queue tail =
    store_tasks capacity tasks (set queue tail task) (next capacity tail)

-- The tasks that `n` rounds of a loop over the ring meet, from an index on.
unfoldable pub read_tasks : ℕ → ℕ → List Task → ℕ → List Task
read_tasks capacity zero queue head = []
read_tasks capacity (suc n) queue head =
    get_or queue head zeroed ∷ read_tasks capacity n queue (next capacity head)
