-- ===== src/ThreadPool/Outcome.antt =====
-- The outcomes of a round of `threadpool_add_batch` and of `__threadpool_worker__`, each with the
-- tests that lead there.
use stdc.Prelude.{
  ℕ, ◌+◌, ◌-◌, ◌≤◌, ◌<◌, ◌≡◌, Bool, true, false, not, ◌&&◌, ◌||◌, inl, inr, some, List, [], ◌∷◌,
  ◌++◌, arith, ltb, ◌==◌, if◌then◌else◌, Bool-cases, length, get_or,
}
use stdc.ThreadPool.Control.{destroy_begin}
use stdc.ThreadPool.Pool.{
  Pool, Wake, broadcast, notify, not_full, all_idle, count_up, Attempt, returns, waits, inc32,
  submit_leave,
}
use stdc.ThreadPool.Ring.{Task, zeroed, next, read_tasks}
use stdc.ThreadPool.Submit.{submit_try, store_batch, notify_workers}
use stdc.ThreadPool.Worker.{Fetch, sleeps, exits, takes, fetch, notify_submitters}

abbrev pub sleep : Pool → List Task → Pool
sleep pool tasks = record pool {
  waiting_submitters = inc32 pool.waiting_submitters;
  waiting_batches =
      if ltb 1 (length tasks) then inc32 pool.waiting_batches else pool.waiting_batches;
}

pub data Tried (pool : Pool) (tasks : List Task) : Attempt × Pool × List Wake → Type 0 where
  blocked :
      pool.shutdown ≡ false
      → pool.queue_capacity < pool.queue_length + length tasks
      → Tried pool tasks (returns 2, (submit_leave pool).0, (submit_leave pool).1)
  asleep :
      pool.shutdown ≡ false
      → pool.queue_capacity < pool.queue_length + length tasks
      → Tried pool tasks (waits, sleep pool tasks, [])
  refused :
      pool.shutdown ≡ true
      → Tried pool tasks (returns 1, (submit_leave pool).0, (submit_leave pool).1)
  stored :
      pool.shutdown ≡ false
      → length tasks ≤ pool.queue_capacity - pool.queue_length
      → Tried pool tasks (
        returns 0,
        (submit_leave (store_batch pool tasks)).0,
        notify_workers (store_batch pool tasks) (length tasks)
            ++ (submit_leave (store_batch pool tasks)).1,
      )

pub submit_try-Tried :
    (block current : Bool) (pool : Pool) (tasks : List Task)
    → Tried pool tasks (submit_try block current pool tasks)
unfolding submit_try
submit_try-Tried block current pool tasks =
    elim (Bool-cases
      (ltb (pool.queue_capacity - pool.queue_length) (length tasks) && not pool.shutdown)) [
        | inl full ↦ elim (Bool-cases (not block || current)) [
          | inl now ↦ rw (full, now) (blocked (ground arith) (ground arith))
          | inr patient ↦ rw (full, patient) (asleep (ground arith) (ground arith))
        ]
        | inr room ↦ elim (Bool-cases pool.shutdown) [
          | inl closing ↦ rw room (simp closing (refused closing))
          | inr running ↦ rw room (simp running (stored running (ground arith)))
        ]
      ]

abbrev pub dequeue : Pool → Pool
dequeue pool = record pool {
  queue_head = next pool.queue_capacity pool.queue_head;
  queue_length = pool.queue_length - 1;
  n_working = pool.n_working + 1;
}

pub data Fetched (pool : Pool) : Fetch × Pool × List Wake → Type 0 where
  idles :
      pool.shutdown ≡ false
      → pool.queue_length ≡ 0
      → Fetched pool (sleeps, record pool { waiting_workers = pool.waiting_workers + 1 }, [])
  leaves : pool.shutdown ≡ true → pool.queue_length ≡ 0 → Fetched pool (exits, pool, [])
  works :
      0 < pool.queue_length
      → Fetched pool
          (takes (get_or pool.queue pool.queue_head zeroed), dequeue pool, notify_submitters pool)

pub fetch-Fetched : (pool : Pool) → Fetched pool (fetch pool)
unfolding fetch
fetch-Fetched pool = elim (Bool-cases ((pool.queue_length == 0) && not pool.shutdown)) [
  | inl idle ↦ rw idle (idles (ground arith) (ground arith))
  | inr due ↦ elim (Bool-cases (pool.shutdown && (pool.queue_length == 0))) [
    | inl over ↦ rw (due, over) (leaves (ground arith) (ground arith))
    | inr task ↦ rw (due, task) (works (ground arith))
  ]
]

abbrev pub all_waiters : List Wake
all_waiters = broadcast notify ∷ broadcast not_full ∷ broadcast all_idle ∷ []

abbrev pub discard : Pool → Pool
discard pool = record pool {
  shutdown = true;
  queue_length = 0;
  discarded = count_up pool.discarded pool.queue_length;
}

pub data Closed (pool : Pool) : List Task × ℕ × Pool × List Wake → Type 0 where
  safely : pool.shutdown ≡ false → Closed pool ([], 0, record pool { shutdown = true }, all_waiters)
  at_once :
      pool.shutdown ≡ false
      → Closed pool (
        read_tasks pool.queue_capacity pool.queue_length pool.queue pool.queue_head,
        pool.queue_length,
        discard pool,
        all_waiters,
      )

pub destroy_begin-Closed :
    {pool : Pool} {out : List Task × ℕ × Pool × List Wake} (current safe_exit : Bool)
    → destroy_begin current safe_exit pool ≡ some out
    → Closed pool out
unfolding destroy_begin
destroy_begin-Closed {pool} {out} current true h =
    let running : pool.shutdown ≡ false = ground arith in
    let e : out ≡ ([], 0, record pool { shutdown = true }, all_waiters) = ground arith in
    rw e (safely running)
destroy_begin-Closed {pool} {out} current false h =
    let running : pool.shutdown ≡ false = ground arith in
    let e : out ≡ (
      read_tasks pool.queue_capacity pool.queue_length pool.queue pool.queue_head,
      pool.queue_length,
      discard pool,
      all_waiters,
    ) =
      ground arith in
    rw e (at_once running)
