-- ===== src/ThreadPool/System.antt =====
-- A thread pool of threadpool.c with its callers: who sleeps in which call, which tasks run, and
-- the history of the tasks. A step is what one thread does between two releases of the lock. A
-- sleeper may take its next step at any time, which covers every order of wake-ups, spurious ones
-- included.
pub mod Users
pub mod Workers
pub mod Fifo
pub mod Counters
pub mod Kept
pub mod Reach
pub mod Promises
use stdc.Prelude.{
  ℕ, zero, suc, ◌+◌, ◌^◌, ◌≡◌, Bool, true, false, Option, none, some, List, [], ◌∷◌, ◌++◌, length,
}
use stdc.ThreadPool.Control.{wait_enter, wait_try, destroy_begin, destroy_end, retain, release}
use stdc.ThreadPool.Pool.{Pool, Wake, Attempt, returns, waits}
use stdc.ThreadPool.Ring.{Task}
use stdc.ThreadPool.Submit.{submit_enter, submit_try, submit_wake}
use stdc.ThreadPool.Worker.{Fetch, sleeps, exits, takes, fetch, worker_wake, finish}

pub record System : Type 0 where
  pub pool : Pool
  -- The batches whose calls sleep in `threadpool_add_batch`, and the number of calls that sleep
  -- in `threadpool_wait`.
  pub submitters : List (List Task)
  pub clients : ℕ
  -- Workers before their first round, asleep, running a task, and at their end.
  pub fresh : ℕ
  pub asleep : ℕ
  pub working : List Task
  pub exited : ℕ
  -- Every task that was accepted, in order; those that were started, in order; how many have
  -- finished; and those that were discarded.
  pub history : List Task
  pub started : List Task
  pub finished : ℕ
  pub dropped : List Task

-- The system after a round of `threadpool_add_batch`; `others` are the calls that sleep on.
unfoldable pub settle_submit :
    System → List (List Task) → List Task → Attempt × Pool × List Wake → System
settle_submit s others tasks (waits, pool, wakes) = record s {
  pool = pool;
  submitters = tasks ∷ others;
}
settle_submit s others tasks (returns zero, pool, wakes) = record s {
  pool = pool;
  submitters = others;
  history = s.history ++ tasks;
}
settle_submit s others tasks (returns (suc status), pool, wakes) = record s {
  pool = pool;
  submitters = others;
}

unfoldable pub settle_wait : System → ℕ → Attempt × Pool × List Wake → System
settle_wait s others (waits, pool, wakes) = record s { pool = pool; clients = others + 1 }
settle_wait s others (returns status, pool, wakes) = record s { pool = pool; clients = others }

unfoldable pub settle_worker : System → Fetch × Pool × List Wake → System
settle_worker s (sleeps, pool, wakes) = record s { pool = pool; asleep = s.asleep + 1 }
settle_worker s (exits, pool, wakes) = record s { pool = pool; exited = s.exited + 1 }
settle_worker s (takes task, pool, wakes) = record s {
  pool = pool;
  working = task ∷ s.working;
  started = s.started ++ task ∷ [];
}

pub data Step : System → System → Type 0 where
  submits :
      {s : System} (block current : Bool) (tasks : List Task) (pool : Pool)
      → submit_enter s.pool tasks ≡ some pool
      → Step s (settle_submit s s.submitters tasks (submit_try block current pool tasks))
  resubmits :
      {s : System} (before after : List (List Task)) (tasks : List Task)
      → s.submitters ≡ before ++ tasks ∷ after
      → Step s (
          settle_submit s
            (before ++ after)
            tasks
            (submit_try true false (submit_wake s.pool (length tasks)) tasks))
  waits_idle :
      {s : System} (pool : Pool)
      → wait_enter false s.pool ≡ some pool
      → Step s (settle_wait s s.clients (wait_try pool))
  rewaits :
      {s : System} (others : ℕ)
      → s.clients ≡ others + 1
      → Step s (settle_wait s others (wait_try s.pool))
  begins :
      {s : System} (others : ℕ)
      → s.fresh ≡ others + 1
      → Step s (settle_worker (record s { fresh = others }) (fetch s.pool))
  awakes :
      {s : System} (others : ℕ)
      → s.asleep ≡ others + 1
      → Step s (settle_worker (record s { asleep = others }) (fetch (worker_wake s.pool)))
  finishes :
      {s : System} (before after : List Task) (task : Task)
      → s.working ≡ before ++ task ∷ after
      → Step s (
          settle_worker
            (record s { working = before ++ after; finished = s.finished + 1 })
            (fetch (finish s.pool).0))
  closes :
      {s : System} (safe_exit : Bool) (tasks : List Task) (n : ℕ) (pool : Pool) (wakes : List Wake)
      → destroy_begin false safe_exit s.pool ≡ some (tasks, n, pool, wakes)
      → Step s (record s { pool = pool; dropped = s.dropped ++ tasks })
  ends :
      {s : System}
      → s.pool.shutdown ≡ true
      → s.pool.api_users ≡ 0
      → s.exited ≡ s.pool.n_workers
      → Step s (record s { pool = destroy_end s.pool })
  retains :
      {s : System} (pool : Pool) → retain s.pool ≡ some pool → Step s (record s { pool = pool })
  releases :
      {s : System} (pool : Pool) (freed : Bool)
      → release s.pool ≡ some (pool, freed)
      → Step s (record s { pool = pool })
