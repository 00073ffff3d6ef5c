-- ===== src/ThreadPool/System/Counters.antt =====
-- The statistics of threadpool.c, `accepted`, `completed`, `discarded` and `queue_peak`: they stop
-- at the largest `uint64` in place of a wrap-around.
use stdc.Prelude.{
  ℕ, ◌+◌, ◌-◌, ◌^◌, ◌≤◌, ◌≡◌, refl, ap, ◌∙◌, min, List, [], ◌∷◌, ◌++◌, arith, length, length-append,
  get_or,
}
use stdc.ThreadPool.Outcome.{
  Tried, blocked, asleep, refused, stored, Fetched, idles, leaves, works, fetch-Fetched, Closed,
  safely, at_once,
}
use stdc.ThreadPool.Pool.{Pool, Wake, Attempt, leave, submit_leave, count_up}
use stdc.ThreadPool.Ring.Laws.{length-read_tasks}
use stdc.ThreadPool.Ring.{Task, zeroed, read_tasks}
use stdc.ThreadPool.Submit.{store_batch}
use stdc.ThreadPool.System.{System, settle_submit, settle_worker}
use stdc.ThreadPool.Worker.{Fetch, fetch, finish}

abbrev pub saturate : ℕ → ℕ
saturate n = min n (2 ^ 64 - 1)

pub count_up-saturate : (n k : ℕ) → count_up (saturate n) k ≡ saturate (n + k)
unfolding count_up
count_up-saturate n k = ground arith

pub record Tallied (pool : Pool) (history : ℕ) (finished dropped : ℕ) : Type 0 where
  pub accepted : pool.accepted ≡ saturate history
  pub completed : pool.completed ≡ saturate finished
  pub discarded : pool.discarded ≡ saturate dropped
  pub peak : pool.queue_length ≤ pool.queue_peak
  pub peak_fits : pool.queue_peak ≤ pool.queue_capacity

-- The counters are those of the history, and a task that was started runs or has finished.
pub record Counters (s : System) : Type 0 where
  pub tally : Tallied s.pool (length s.history) s.finished (length s.dropped)
  pub flow : length s.started ≡ s.finished + length s.working

pub Tallied-kept :
    {pool : Pool} {history finished dropped : ℕ} (after : Pool)
    → after.accepted ≡ pool.accepted
    → after.completed ≡ pool.completed
    → after.discarded ≡ pool.discarded
    → after.queue_peak ≡ pool.queue_peak
    → after.queue_capacity ≡ pool.queue_capacity
    → after.queue_length ≤ pool.queue_length
    → Tallied pool history finished dropped
    → Tallied after history finished dropped
Tallied-kept after a b c d e f t = record {
  accepted = a ∙ t.accepted;
  completed = b ∙ t.completed;
  discarded = c ∙ t.discarded;
  peak = omega (arith, t.peak);
  peak_fits = omega (arith, t.peak_fits);
}

submit_leave-Tallied :
    {pool : Pool} {history finished dropped : ℕ}
    → Tallied pool history finished dropped
    → Tallied (submit_leave pool).0 history finished dropped
unfolding submit_leave leave
submit_leave-Tallied t = Tallied-kept _ refl refl refl refl refl (omega arith) t

store_batch-Tallied :
    {pool : Pool} {history finished dropped : ℕ} (tasks : List Task)
    → pool.queue_length ≤ pool.queue_capacity
    → length tasks ≤ pool.queue_capacity - pool.queue_length
    → Tallied pool history finished dropped
    → Tallied (store_batch pool tasks) (history + length tasks) finished dropped
unfolding store_batch
store_batch-Tallied {pool} {history} tasks room fits t = record {
  accepted =
      ap (λ n. count_up n (length tasks)) t.accepted ∙ count_up-saturate history (length tasks);
  completed = t.completed;
  discarded = t.discarded;
  peak = ground (arith, t.peak);
  peak_fits = ground (arith, t.peak_fits);
}

pub submit-Counters :
    {pool : Pool} (s : System) (others : List (List Task)) (tasks : List Task)
    {out : Attempt × Pool × List Wake}
    → Tried pool tasks out
    → pool.queue_length ≤ pool.queue_capacity
    → Tallied pool (length s.history) s.finished (length s.dropped)
    → length s.started ≡ s.finished + length s.working
    → Counters (settle_submit s others tasks out)
unfolding settle_submit
submit-Counters s others tasks (blocked a b) room t f = record {
  tally = submit_leave-Tallied t;
  flow = f;
}
submit-Counters s others tasks (asleep a b) room t f = record {
  tally = Tallied-kept _ refl refl refl refl refl (omega arith) t;
  flow = f;
}
submit-Counters s others tasks (refused a) room t f = record {
  tally = submit_leave-Tallied t;
  flow = f;
}
submit-Counters s others tasks (stored running fits) room t f = record {
  tally =
      rw (length-append s.history tasks)
        (submit_leave-Tallied (store_batch-Tallied tasks room fits t));
  flow = f;
}

Fetched-Counters :
    {pool : Pool} (s : System) {out : Fetch × Pool × List Wake}
    → Fetched pool out
    → Tallied pool (length s.history) s.finished (length s.dropped)
    → length s.started ≡ s.finished + length s.working
    → Counters (settle_worker s out)
unfolding settle_worker
Fetched-Counters s (idles a b) t f = record {
  tally = Tallied-kept _ refl refl refl refl refl (omega arith) t;
  flow = f;
}
Fetched-Counters s (leaves a b) t f = record { tally = t; flow = f }
Fetched-Counters {pool} s (works some_task) t f = record {
  tally = Tallied-kept _ refl refl refl refl refl (omega arith) t;
  flow = omega (arith, f, length-append s.started (get_or pool.queue pool.queue_head zeroed ∷ []));
}

pub fetch-Counters :
    {pool : Pool} (s : System)
    → Tallied pool (length s.history) s.finished (length s.dropped)
    → length s.started ≡ s.finished + length s.working
    → Counters (settle_worker s (fetch pool))
fetch-Counters {pool} s t f = Fetched-Counters s (fetch-Fetched pool) t f

pub finish-Tallied :
    {pool : Pool} {history finished dropped : ℕ}
    → Tallied pool history finished dropped
    → Tallied (finish pool).0 history (finished + 1) dropped
unfolding finish
finish-Tallied {pool} {history} {finished} t = record {
  accepted = t.accepted;
  completed = ap (λ n. count_up n 1) t.completed ∙ count_up-saturate finished 1;
  discarded = t.discarded;
  peak = t.peak;
  peak_fits = t.peak_fits;
}

pub Closed-Tallied :
    {pool : Pool} {history finished : ℕ} (dropped : List Task)
    {out : List Task × ℕ × Pool × List Wake}
    → Closed pool out
    → Tallied pool history finished (length dropped)
    → Tallied out.2 history finished (length (dropped ++ out.0))
Closed-Tallied dropped (safely running) t = record {
  accepted = t.accepted;
  completed = t.completed;
  discarded = t.discarded ∙ omega (arith, length-append {A = Task} dropped []);
  peak = t.peak;
  peak_fits = t.peak_fits;
}
Closed-Tallied {pool} dropped (at_once running) t =
    let tasks = read_tasks pool.queue_capacity pool.queue_length pool.queue pool.queue_head in
    let n = length-read_tasks pool.queue_capacity pool.queue_length pool.queue pool.queue_head in
    record {
      accepted = t.accepted;
      completed = t.completed;
      discarded =
          ap (λ n. count_up n pool.queue_length) t.discarded
          ∙ count_up-saturate (length dropped) pool.queue_length
          ∙ omega (arith, length-append dropped tasks, n);
      peak = omega arith;
      peak_fits = t.peak_fits;
    }
