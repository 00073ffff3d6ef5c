-- ===== src/ThreadPool/Worker.antt =====
-- `__threadpool_worker__` of threadpool.c: what a worker does between two releases of the lock.
use stdc.Prelude.{◌+◌, ◌-◌, not, ◌&&◌, List, [], ◌∷◌, ◌==◌, if◌then◌else◌, get_or}
use stdc.ThreadPool.Pool.{Pool, Wake, signal, broadcast, not_full, count_up, signal_idle}
use stdc.ThreadPool.Ring.{Task, zeroed, next}

-- How a worker that holds the lock goes on.
pub data Fetch : Type 0 where
  sleeps : Fetch
  exits : Fetch
  takes : Task → Fetch

unfoldable pub notify_submitters : Pool → List Wake
notify_submitters pool =
    if pool.waiting_submitters == 0
    then []
    else if not (pool.waiting_batches == 0)
    then broadcast not_full ∷ []
    else signal not_full ∷ []

-- From the test of the inner loop to the release of the lock.
unfoldable pub fetch : Pool → Fetch × Pool × List Wake
fetch pool =
    if (pool.queue_length == 0) && not pool.shutdown
    then (sleeps, record pool { waiting_workers = pool.waiting_workers + 1 }, [])
    else if pool.shutdown && (pool.queue_length == 0)
    then (exits, pool, [])
    else (
      takes (get_or pool.queue pool.queue_head zeroed),
      record pool {
        queue_head = next pool.queue_capacity pool.queue_head;
        queue_length = pool.queue_length - 1;
        n_working = pool.n_working + 1;
      },
      notify_submitters pool,
    )

-- Back from the wait.
unfoldable pub worker_wake : Pool → Pool
worker_wake pool = record pool { waiting_workers = pool.waiting_workers - 1 }

-- From the return of the task and its cleanup to the next round.
unfoldable pub finish : Pool → Pool × List Wake
finish pool =
    let done = record pool {
      n_working = pool.n_working - 1;
      completed = count_up pool.completed 1;
    } in
    (done, signal_idle done)
