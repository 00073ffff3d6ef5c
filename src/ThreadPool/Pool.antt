-- ===== src/ThreadPool/Pool.antt =====
-- `struct ThreadPool` of threadpool.c and the helpers that run with its lock held. The mutex and
-- the conditions are not part of the state: the code between two releases of the lock is one
-- function, which returns the wake-ups that it sends.
use stdc.Prelude.Word.{u32}
use stdc.Prelude.{ℕ, ◌+◌, ◌-◌, ◌^◌, Bool, not, ◌&&◌, List, [], ◌∷◌, ◌++◌, ltb, ◌==◌, if◌then◌else◌}
use stdc.ThreadPool.Ring.{Task}

pub record Pool : Type 0 where
  pub references : ℕ
  pub api_users : ℕ
  pub pending_submissions : ℕ
  pub waiting_submitters : ℕ
  pub waiting_batches : ℕ
  pub waiting_clients : ℕ
  pub waiting_workers : ℕ
  pub shutdown : Bool
  pub destroyed : Bool
  pub n_workers : ℕ
  pub n_working : ℕ
  pub queue : List Task
  pub queue_length : ℕ
  pub queue_capacity : ℕ
  pub queue_head : ℕ
  pub queue_tail : ℕ
  pub queue_peak : ℕ
  pub accepted : ℕ
  pub completed : ℕ
  pub discarded : ℕ

pub data Condition : Type 0 where
  notify : Condition
  not_full : Condition
  all_idle : Condition
  api_idle : Condition

pub data Wake : Type 0 where
  signal : Condition → Wake
  broadcast : Condition → Wake

-- How a call that holds the lock goes on: it returns a status, or sleeps on a condition.
pub data Attempt : Type 0 where
  returns : ℕ → Attempt
  waits : Attempt

-- `++` and `--` on an `unsigned int`
abbrev pub inc32 : ℕ → ℕ
inc32 n = u32 (n + 1)

abbrev pub dec32 : ℕ → ℕ
dec32 n = u32 (n + (2 ^ 32 - 1))

-- `__threadpool_count__`
unfoldable pub count_up : ℕ → ℕ → ℕ
count_up counter count = if ltb (2 ^ 64 - 1 - counter) count then 2 ^ 64 - 1 else counter + count

-- `__threadpool_signal_idle__`
unfoldable pub signal_idle : Pool → List Wake
signal_idle pool =
    if not (pool.waiting_clients == 0)
      && (pool.queue_length == 0)
      && (pool.n_working == 0)
      && (pool.pending_submissions == 0)
    then broadcast all_idle ∷ []
    else []

-- `__threadpool_leave__`
unfoldable pub leave : Pool → Pool × List Wake
leave pool =
    let left = record pool { api_users = dec32 pool.api_users } in
    (left, if left.shutdown && (left.api_users == 0) then signal api_idle ∷ [] else [])

-- `__threadpool_submit_leave__`
unfoldable pub submit_leave : Pool → Pool × List Wake
submit_leave pool =
    let settled = record pool { pending_submissions = dec32 pool.pending_submissions } in
    let (left, wakes) = leave settled in (left, signal_idle settled ++ wakes)
