-- ===== src/ThreadPool/Submit.antt =====
-- `threadpool_add_batch` of threadpool.c: what it does between two releases of the lock.
use stdc.Prelude.{
  ℕ, ◌+◌, ◌-◌, ◌^◌, Bool, true, false, not, ◌&&◌, ◌||◌, Option, none, some, List, [], ◌∷◌, ◌++◌,
  ltb, leb, ◌==◌, if◌then◌else◌, length, replicate, ◌≡◌, ◌≢◌, ◌≤◌, ◌<◌, arith,
}
use stdc.ThreadPool.Pool.{
  Pool, Wake, notify, signal, broadcast, Attempt, returns, waits, inc32, dec32, count_up,
  submit_leave,
}
use stdc.ThreadPool.Ring.{Task, store_tasks}

-- The loop that looks for a null function.
unfoldable pub all_callable : List Task → Bool
all_callable [] = true
all_callable (task ∷ tasks) = if task.func == 0 then false else all_callable tasks

-- From the call to the loop; `none` stands for a return of 1 that leaves the pool as it is.
unfoldable pub submit_enter : Pool → List Task → Option Pool
submit_enter pool tasks =
    if length tasks == 0
    then none
    else if pool.shutdown
        || (pool.api_users == 2 ^ 32 - 1)
        || ltb pool.queue_capacity (length tasks)
    then none
    else if not (all_callable tasks)
    then none
    else some (record pool {
      api_users = inc32 pool.api_users;
      pending_submissions = inc32 pool.pending_submissions;
    })

-- The two loops that store the batch and wake workers for it.
unfoldable pub store_batch : Pool → List Task → Pool
store_batch pool tasks =
    let (queue, tail) = store_tasks pool.queue_capacity tasks pool.queue pool.queue_tail in
    let filled = pool.queue_length + length tasks in
    record pool {
      queue = queue;
      queue_tail = tail;
      queue_length = filled;
      queue_peak = if ltb pool.queue_peak filled then filled else pool.queue_peak;
      accepted = count_up pool.accepted (length tasks);
    }

unfoldable pub notify_workers : Pool → ℕ → List Wake
notify_workers pool count =
    if pool.waiting_workers == 0
    then []
    else if leb pool.waiting_workers count && ltb 1 count
    then broadcast notify ∷ []
    else replicate count (signal notify)

-- One round of the loop: the test, then sleep, refusal, or the rest of the function.
-- `current` tells that the caller is a worker of this pool.
unfoldable pub submit_try : Bool → Bool → Pool → List Task → Attempt × Pool × List Wake
submit_try block current pool tasks =
    let count = length tasks in
    if ltb (pool.queue_capacity - pool.queue_length) count && not pool.shutdown
    then (if not block || current
        then (let (left, wakes) = submit_leave pool in (returns 2, left, wakes))
        else (
          waits,
          record pool {
            waiting_submitters = inc32 pool.waiting_submitters;
            waiting_batches =
                if ltb 1 count then inc32 pool.waiting_batches else pool.waiting_batches;
          },
          [],
        ))
    else if pool.shutdown
    then (let (left, wakes) = submit_leave pool in (returns 1, left, wakes))
    else (let stored = store_batch pool tasks in
        let (left, wakes) = submit_leave stored in
        (returns 0, left, notify_workers stored count ++ wakes))

-- Back from the wait.
unfoldable pub submit_wake : Pool → ℕ → Pool
submit_wake pool count = record pool {
  waiting_batches = if ltb 1 count then dec32 pool.waiting_batches else pool.waiting_batches;
  waiting_submitters = dec32 pool.waiting_submitters;
}

-- What the guards of `threadpool_add_batch` leave.
pub record Entered (pool : Pool) (tasks : List Task) (entered : Pool) : Type 0 where
  pub counted : entered ≡ record pool {
    api_users = inc32 pool.api_users;
    pending_submissions = inc32 pool.pending_submissions;
  }
  pub is_open : pool.shutdown ≡ false
  pub free : pool.api_users ≢ 2 ^ 32 - 1
  pub fits : length tasks ≤ pool.queue_capacity
  pub some_task : 0 < length tasks

pub submit_enter-Entered :
    (pool entered : Pool) (tasks : List Task)
    → submit_enter pool tasks ≡ some entered
    → Entered pool tasks entered
unfolding submit_enter
submit_enter-Entered pool entered tasks h = record {
  counted = ground arith;
  is_open = ground arith;
  free = ground arith;
  fits = ground arith;
  some_task = ground arith;
}

-- `threadpool_add` submits a batch of one task.
unfoldable pub single_batch : ℕ → ℕ → ℕ → List Task
single_batch func args cleanup = record { func = func; args = args; cleanup = cleanup } ∷ []
