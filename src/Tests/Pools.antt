-- ===== src/Tests/Pools.antt =====
-- The thread pool of threadpool.c with two workers and room for three tasks.
use stdc.Prelude.{
  ℕ, ◌+◌, ◌≡◌, ◌≢◌, ◌≤◌, refl, Bool, true, false, none, some, List, [], ◌∷◌, ◌++◌, inl, arith,
  length, replicate,
}
use stdc.ThreadPool.Calls.{
  taken, submit_try-contents, wakes_clients, idle-wakes, woken, closed-refuses,
}
use stdc.ThreadPool.Control.{
  is_positive, create, wait_enter, wait_try, is_busy, destroy_begin, retain, release, stats,
}
use stdc.ThreadPool.Outcome.{all_waiters, discard}
use stdc.ThreadPool.Pool.{Pool, returns, waits, count_up, signal_idle, leave, submit_leave}
use stdc.ThreadPool.Ring.Laws.{place}
use stdc.ThreadPool.Ring.{Task, zeroed, next, store_tasks, read_tasks}
use stdc.ThreadPool.Submit.{
  all_callable, submit_enter, store_batch, notify_workers, submit_try, submit_wake,
}
use stdc.ThreadPool.System.Counters.{saturate}
use stdc.ThreadPool.System.Fifo.{contents, IsRing}
use stdc.ThreadPool.System.Promises.{reach-order, reach-conserved, wait_try-done, end-done}
use stdc.ThreadPool.System.Reach.{Reachable, here, after, start}
use stdc.ThreadPool.System.Users.{batches}
use stdc.ThreadPool.System.{
  System, submits, begins, awakes, finishes, closes, settle_submit, settle_worker,
}
use stdc.ThreadPool.Worker.{fetch, worker_wake, finish, notify_submitters}

program : Unit {0}
unfolding taken wakes_clients woken is_positive create wait_enter wait_try is_busy destroy_begin
    retain release stats count_up signal_idle leave submit_leave next store_tasks read_tasks
    all_callable submit_enter store_batch notify_workers submit_try submit_wake contents start
    batches settle_submit settle_worker fetch worker_wake finish notify_submitters replicate place
program = tt

abbrev task : ℕ → Task
task n = record { func = 1; args = n; cleanup = 0 }

abbrev made : Pool
made = record {
  references = 1;
  api_users = 0;
  pending_submissions = 0;
  waiting_submitters = 0;
  waiting_batches = 0;
  waiting_clients = 0;
  waiting_workers = 0;
  shutdown = false;
  destroyed = false;
  n_workers = 2;
  n_working = 0;
  queue = zeroed ∷ zeroed ∷ zeroed ∷ [];
  queue_length = 0;
  queue_capacity = 3;
  queue_head = 0;
  queue_tail = 0;
  queue_peak = 0;
  accepted = 0;
  completed = 0;
  discarded = 0;
}

creates : create 8 true true 2 3 ≡ some made
unfolding program
creates = refl

abbrev tasks : List Task
tasks = task 1 ∷ task 2 ∷ []

abbrev entered : Pool
entered = record made { api_users = 1; pending_submissions = 1 }

enters : submit_enter made tasks ≡ some entered
unfolding program
enters = refl

-- Two tasks are submitted, then a worker takes the first.
abbrev submitted : System
submitted =
    settle_submit (start made) (start made).submitters tasks (submit_try true false entered tasks)

abbrev one_runs : System
one_runs = settle_worker (record submitted { fresh = 1 }) (fetch submitted.pool)

reached : Reachable (start made) one_runs
unfolding program
reached = after (after here (submits true false tasks entered enters)) (begins 1 refl)

one_is_left : contents one_runs.pool ≡ task 2 ∷ []
unfolding program
one_is_left = refl

reach-order_example :
    one_runs.history ≡ one_runs.started ++ (one_runs.dropped ++ contents one_runs.pool)
reach-order_example = reach-order 8 true true 2 3 creates reached

reach-conserved_example :
    (one_runs.history ≡ one_runs.started ++ (one_runs.dropped ++ contents one_runs.pool))
    × (length one_runs.started ≡ one_runs.finished + (stats one_runs.pool).active_tasks)
    × (length (contents one_runs.pool) ≡ (stats one_runs.pool).queued_tasks)
    × ((stats one_runs.pool).accepted ≡ saturate (length one_runs.history))
    × ((stats one_runs.pool).completed ≡ saturate one_runs.finished)
    × ((stats one_runs.pool).discarded ≡ saturate (length one_runs.dropped))
    × ((stats one_runs.pool).queued_tasks ≤ (stats one_runs.pool).queue_peak)
    × ((stats one_runs.pool).queue_peak ≤ (stats one_runs.pool).queue_capacity)
    × ((stats one_runs.pool).active_tasks + (stats one_runs.pool).idle_workers
        ≤ (stats one_runs.pool).workers)
reach-conserved_example = reach-conserved 8 true true 2 3 creates reached

-- One task is submitted, taken and finished; the worker sleeps.
abbrev single : List Task
single = task 1 ∷ []

abbrev filled : System
filled =
    settle_submit (start made) (start made).submitters single (submit_try true false entered single)

abbrev running : System
running = settle_worker (record filled { fresh = 1 }) (fetch filled.pool)

abbrev rested : System
rested =
    settle_worker (record running { working = []; finished = 1 }) (fetch (finish running.pool).0)

resting : Reachable (start made) rested
unfolding program
resting =
    after (after (after here (submits true false single entered refl)) (begins 1 refl))
      (finishes [] [] (task 1) refl)

abbrev asking : Pool
asking = record rested.pool { api_users = 1; waiting_clients = 1 }

asks : wait_enter false rested.pool ≡ some asking
unfolding program
asks = refl

answers : (wait_try asking).0 ≡ returns 0
unfolding program
answers = refl

wait_try-done_example :
    (rested.finished ≡ length rested.history) × (rested.dropped ≡ []) × (rested.submitters ≡ [])
wait_try-done_example = wait_try-done 8 true true 2 3 creates resting asking (inl asks) answers

-- The pool is closed, and both workers leave.
abbrev closed : System
closed = record rested { pool = record rested.pool { shutdown = true }; dropped = [] }

abbrev first_left : System
first_left = settle_worker (record closed { fresh = 0 }) (fetch closed.pool)

abbrev both_left : System
both_left = settle_worker (record first_left { asleep = 0 }) (fetch (worker_wake first_left.pool))

leaving : Reachable (start made) both_left
unfolding program
leaving =
    after
      (after
        (after resting (closes true [] 0 (record rested.pool { shutdown = true }) all_waiters refl))
        (begins 0 refl))
      (awakes 0 refl)

end-done_example :
    (both_left.history ≡ both_left.started ++ both_left.dropped)
    × (length both_left.started ≡ both_left.finished)
    × (contents both_left.pool ≡ [])
end-done_example = end-done 8 true true 2 3 creates leaving (unfold program in refl)

made-IsRing : IsRing made
unfolding program
made-IsRing = record { room = omega arith; head = omega arith; whole = λ _. refl; tail = λ _. refl }

submit_try-contents_example :
    contents (submit_try true false made tasks).1
    ≡ contents made ++ taken (submit_try true false made tasks).0 tasks
submit_try-contents_example = submit_try-contents true false made tasks made-IsRing

idle-wakes_example :
    ((finish made).0.waiting_clients ≢ 0
      → is_busy (finish made).0 ≡ false
      → wakes_clients (finish made).1 ≡ true)
    × ((submit_try false false made tasks).0 ≢ waits
        → (submit_try false false made tasks).1.waiting_clients ≢ 0
        → is_busy (submit_try false false made tasks).1 ≡ false
        → wakes_clients (submit_try false false made tasks).2 ≡ true)
idle-wakes_example = idle-wakes false false made tasks

abbrev sleepers : Pool
sleepers = record made { waiting_workers = 2 }

abbrev loaded : Pool
loaded = submitted.pool

closes_loaded : destroy_begin false false loaded ≡ some (tasks, 2, discard loaded, all_waiters)
unfolding program
closes_loaded = refl

closed-refuses_example :
    (submit_enter (discard loaded) tasks ≡ none)
    × (wait_enter false (discard loaded) ≡ none)
    × (destroy_begin false false (discard loaded) ≡ none)
    × (retain (discard loaded) ≡ none)
    × ((block : Bool) → (submit_try block false (discard loaded) tasks).0 ≡ returns 1)
closed-refuses_example =
    closed-refuses false false loaded (discard loaded) tasks tasks 2 all_waiters closes_loaded

retains_made : retain made ≡ some (record made { references = 2 })
unfolding program
retains_made = refl
