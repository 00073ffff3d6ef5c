-- ===== src/ThreadPool/Control.antt =====
-- The other functions of threadpool.c: creation, waiting, statistics, destruction, references.
use stdc.Prelude.{
  ℕ, ◌-◌, ◌/◌, ◌^◌, Bool, true, false, not, ◌&&◌, ◌||◌, Option, none, some, List, [], ◌∷◌, ltb,
  ◌==◌, if◌then◌else◌, replicate,
}
use stdc.ThreadPool.Pool.{
  Pool, Wake, broadcast, notify, not_full, all_idle, Attempt, returns, waits, inc32, dec32,
  count_up, leave,
}
use stdc.ThreadPool.Ring.{Task, zeroed, read_tasks}

-- `x > 0` for an `int` by its bits.
unfoldable pub is_positive : ℕ → Bool
is_positive x = not (x == 0) && ltb x (2 ^ 31)

-- `threadpool_create`: `allocated` tells that the three calls of `calloc` succeed, `initialized`
-- that the mutex, the conditions and all threads are created. A `ThreadPoolTask` has 24 bytes, a
-- `Thread` has `thread_size`.
unfoldable pub create : ℕ → Bool → Bool → ℕ → ℕ → Option Pool
create thread_size allocated initialized n_workers capacity =
    if not (is_positive n_workers) || not (is_positive capacity)
    then none
    else if ltb ((2 ^ 64 - 1) / 24) capacity || ltb ((2 ^ 64 - 1) / thread_size) n_workers
    then none
    else if not allocated || not initialized
    then none
    else some (record {
      references = 1;
      api_users = 0;
      pending_submissions = 0;
      waiting_submitters = 0;
      waiting_batches = 0;
      waiting_clients = 0;
      waiting_workers = 0;
      shutdown = false;
      destroyed = false;
      n_workers = n_workers;
      n_working = 0;
      queue = replicate capacity zeroed;
      queue_length = 0;
      queue_capacity = capacity;
      queue_head = 0;
      queue_tail = 0;
      queue_peak = 0;
      accepted = 0;
      completed = 0;
      discarded = 0;
    })

-- `threadpool_wait` up to its loop; `none` stands for a return of 1.
unfoldable pub wait_enter : Bool → Pool → Option Pool
wait_enter current pool =
    if current || pool.shutdown || (pool.api_users == 2 ^ 32 - 1)
    then none
    else some (record pool {
      api_users = inc32 pool.api_users;
      waiting_clients = inc32 pool.waiting_clients;
    })

-- `queue_length > 0 || n_working > 0 || pending_submissions > 0`
unfoldable pub is_busy : Pool → Bool
is_busy pool =
    not (pool.queue_length == 0) || not (pool.n_working == 0) || not (pool.pending_submissions == 0)

-- One round of its loop.
unfoldable pub wait_try : Pool → Attempt × Pool × List Wake
wait_try pool =
    if not pool.shutdown && is_busy pool
    then (waits, pool, [])
    else (let (left, wakes) =
          leave (record pool { waiting_clients = dec32 pool.waiting_clients }) in
        (returns (if pool.shutdown then 1 else 0), left, wakes))

-- `__threadpool_destroy__` up to the first release of the lock: the tasks whose cleanup runs next,
-- and the number that `discarded_tasks` gets.
unfoldable pub destroy_begin : Bool → Bool → Pool → Option (List Task × ℕ × Pool × List Wake)
destroy_begin current safe_exit pool =
    if current || pool.shutdown
    then none
    else (let closing = record pool { shutdown = true } in
        let wakes = broadcast notify ∷ broadcast not_full ∷ broadcast all_idle ∷ [] in
        if safe_exit
        then some ([], 0, closing, wakes)
        else some (
          read_tasks pool.queue_capacity pool.queue_length pool.queue pool.queue_head,
          pool.queue_length,
          record closing {
            queue_length = 0;
            discarded = count_up pool.discarded pool.queue_length;
          },
          wakes,
        ))

-- Its last section, once no call is in progress and every worker has been joined.
unfoldable pub destroy_end : Pool → Pool
destroy_end pool = record pool { queue = []; destroyed = true }

-- `__threadpool_retain__`; `none` stands for a return of 1.
unfoldable pub retain : Pool → Option Pool
retain pool =
    if pool.shutdown || (pool.references == 2 ^ 32 - 1)
    then none
    else some (record pool { references = inc32 pool.references })

-- `__threadpool_release__`: the pool afterwards, and whether it is freed.
unfoldable pub release : Pool → Option (Pool × Bool)
release pool =
    if (pool.references == 1) && not pool.destroyed
    then none
    else (let left = record pool { references = dec32 pool.references } in
        some (left, left.references == 0))

pub record Stats : Type 0 where
  pub workers : ℕ
  pub active_tasks : ℕ
  pub idle_workers : ℕ
  pub waiting_submitters : ℕ
  pub waiting_clients : ℕ
  pub pending_submissions : ℕ
  pub queued_tasks : ℕ
  pub queue_capacity : ℕ
  pub queue_peak : ℕ
  pub accepted : ℕ
  pub completed : ℕ
  pub discarded : ℕ
  pub closing : Bool
  pub destroyed : Bool

-- `threadpool_stats`
unfoldable pub stats : Pool → Stats
stats pool = record {
  workers = pool.n_workers;
  active_tasks = pool.n_working;
  idle_workers = pool.waiting_workers;
  waiting_submitters = pool.waiting_submitters;
  waiting_clients = pool.waiting_clients;
  pending_submissions = pool.pending_submissions;
  queued_tasks = pool.queue_length;
  queue_capacity = pool.queue_capacity;
  queue_peak = pool.queue_peak;
  accepted = pool.accepted;
  completed = pool.completed;
  discarded = pool.discarded;
  closing = pool.shutdown;
  destroyed = pool.destroyed;
}
