-- ===== src/ThreadPool/System/Workers.antt =====
-- The counters of workers in threadpool.c, `n_working` and `waiting_workers`, and the end of a
-- worker's loop.
use stdc.Prelude.{
  ℕ, suc, ◌+◌, ◌≤◌, ◌<◌, ◌≡◌, refl, sym, ◌∙◌, true, not, ◌&&◌, inl, inr, List, arith, ◌==◌,
  Bool-cases, length,
}
use stdc.ThreadPool.Outcome.{Tried, blocked, asleep, refused, stored, Closed, safely, at_once}
use stdc.ThreadPool.Pool.{Pool, Wake, Attempt, leave, submit_leave}
use stdc.ThreadPool.Ring.{Task}
use stdc.ThreadPool.Submit.{store_batch}
use stdc.ThreadPool.System.{System, settle_submit, settle_worker}
use stdc.ThreadPool.Worker.{fetch, worker_wake, finish}

-- The counters stand for the workers that sleep or run a task, `k` workers are in between, and a
-- worker leaves only a pool that is closed and drained.
pub record Staffed (pool : Pool) (fresh asleep running exited k : ℕ) : Type 0 where
  pub working : pool.n_working ≡ running
  pub sleeping : pool.waiting_workers ≡ asleep
  pub total : fresh + asleep + running + exited + k ≡ pool.n_workers
  pub hired : 0 < pool.n_workers
  pub closed : 0 < exited → pool.shutdown ≡ true
  pub drained : 0 < exited → pool.queue_length ≡ 0

abbrev pub Workers : System → Type 0
Workers s = Staffed s.pool s.fresh s.asleep (length s.working) s.exited 0

pub fetch-Workers :
    {pool : Pool} (s : System)
    → Staffed pool s.fresh s.asleep (length s.working) s.exited 1
    → Workers (settle_worker s (fetch pool))
unfolding fetch settle_worker
fetch-Workers {pool} s w = elim (Bool-cases ((pool.queue_length == 0) && not pool.shutdown)) [
  | inl idle ↦ rw idle record {
    working = w.working;
    sleeping = omega (arith, w.sleeping);
    total = omega (arith, w.total);
    hired = w.hired;
    closed = w.closed;
    drained = w.drained;
  }
  | inr due ↦ elim (Bool-cases (pool.shutdown && (pool.queue_length == 0))) [
    | inl over ↦
        rw (due, over)
          record {
            working = w.working;
            sleeping = w.sleeping;
            total = omega (arith, w.total);
            hired = w.hired;
            closed = λ h. ground arith;
            drained = λ h. ground arith;
          }
    | inr task ↦
        rw (due, task)
          record {
            working = omega (arith, w.working);
            sleeping = w.sleeping;
            total = omega (arith, w.total);
            hired = w.hired;
            closed = w.closed;
            drained = λ h. omega (arith, w.drained h);
          }
  ]
]

pub worker_wake-Staffed :
    {pool : Pool} {fresh asleep running exited : ℕ}
    → Staffed pool fresh (asleep + 1) running exited 0
    → Staffed (worker_wake pool) fresh asleep running exited 1
unfolding worker_wake
worker_wake-Staffed w = record {
  working = w.working;
  sleeping = omega (arith, w.sleeping);
  total = omega (arith, w.total);
  hired = w.hired;
  closed = w.closed;
  drained = w.drained;
}

pub finish-Staffed :
    {pool : Pool} {fresh asleep running exited : ℕ}
    → Staffed pool fresh asleep (suc running) exited 0
    → Staffed (finish pool).0 fresh asleep running exited 1
unfolding finish
finish-Staffed w = record {
  working = omega (arith, w.working);
  sleeping = w.sleeping;
  total = omega (arith, w.total);
  hired = w.hired;
  closed = w.closed;
  drained = w.drained;
}

-- Another call moves none of the workers, and fills the queue only while the pool is open.
pub Staffed-kept :
    {pool : Pool} {fresh asleep running exited k : ℕ} (after : Pool)
    → after.n_working ≡ pool.n_working
    → after.waiting_workers ≡ pool.waiting_workers
    → after.n_workers ≡ pool.n_workers
    → (pool.shutdown ≡ true → (after.shutdown ≡ true) × (after.queue_length ≤ pool.queue_length))
    → Staffed pool fresh asleep running exited k
    → Staffed after fresh asleep running exited k
Staffed-kept after a b c d w = record {
  working = a ∙ w.working;
  sleeping = b ∙ w.sleeping;
  total = w.total ∙ sym c;
  hired = omega (arith, w.hired);
  closed = λ h. (d (w.closed h)).0;
  drained = λ h. omega (arith, (d (w.closed h)).1, w.drained h);
}

pub submit-Workers :
    {pool : Pool} (s : System) (others : List (List Task)) (tasks : List Task)
    {out : Attempt × Pool × List Wake}
    → Tried pool tasks out
    → Staffed pool s.fresh s.asleep (length s.working) s.exited 0
    → Workers (settle_submit s others tasks out)
unfolding settle_submit submit_leave leave store_batch
submit-Workers s others tasks (blocked a b) w =
    Staffed-kept _ refl refl refl (λ h. (h, omega arith)) w
submit-Workers s others tasks (asleep a b) w =
    Staffed-kept _ refl refl refl (λ h. (h, omega arith)) w
submit-Workers s others tasks (refused a) w =
    Staffed-kept _ refl refl refl (λ h. (h, omega arith)) w
submit-Workers s others tasks (stored running fits) w =
    Staffed-kept _ refl refl refl (λ h. absurd (ground arith)) w

pub Closed-Staffed :
    {pool : Pool} {fresh asleep running exited : ℕ} {out : List Task × ℕ × Pool × List Wake}
    → Closed pool out
    → Staffed pool fresh asleep running exited 0
    → Staffed out.2 fresh asleep running exited 0
Closed-Staffed (safely e) w = Staffed-kept _ refl refl refl (λ h. (refl, omega arith)) w
Closed-Staffed (at_once e) w = Staffed-kept _ refl refl refl (λ h. (refl, omega arith)) w
