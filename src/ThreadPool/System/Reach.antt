-- ===== src/ThreadPool/System/Reach.antt =====
-- Every state that the thread pool of threadpool.c can reach, whatever the order in which its
-- threads get the lock.
use stdc.Prelude.{suc, ◌+◌, ◌≡◌, refl, ap, ◌∙◌, true, false, [], ◌++◌, arith, length}
use stdc.ThreadPool.Control.{destroy_end}
use stdc.ThreadPool.Outcome.{destroy_begin-Closed}
use stdc.ThreadPool.Pool.{Pool}
use stdc.ThreadPool.Submit.{submit_wake, submit_enter-Entered}
use stdc.ThreadPool.System.Counters.{Tallied-kept, finish-Tallied, Closed-Tallied}
use stdc.ThreadPool.System.Fifo.{Ordered-kept, Closed-Ordered, end-Ordered}
use stdc.ThreadPool.System.Users.{
  Counted-kept, Closed-Users, submit_enter-Counted, submit_wake-Counted, wait_enter-Counted,
  length-insert,
}
use stdc.ThreadPool.System.Workers.{
  worker_wake-Staffed, finish-Staffed, Staffed-kept, Closed-Staffed,
}
use stdc.ThreadPool.System.{
  System, Step, submits, resubmits, waits_idle, rewaits, begins, awakes, finishes, closes, ends,
  retains, releases,
}
use stdc.ThreadPool.Worker.{worker_wake, finish}
use stdc.ThreadPool.System.Kept.{
  Valid, work, quiet, wait_enter-work, submit-Valid, wait-Valid, retain-references,
  release-references, worker-Valid,
}

Step-Valid : {s t : System} → Step s t → Valid s → Valid t
Step-Valid {s} (submits block current tasks pool e) v =
    let g = submit_enter-Entered s.pool pool tasks e in
    submit-Valid s s.submitters block current tasks (ap work g.counted) v
      (submit_enter-Counted tasks v.users e)
Step-Valid {s} (resubmits before after tasks e) v =
    submit-Valid s (before ++ after) true false tasks (unfold submit_wake in refl) v
      (submit_wake-Counted before after tasks (rw⁻¹ e v.users))
Step-Valid {s} (waits_idle pool e) v =
    wait-Valid s s.clients (wait_enter-work s.pool pool e) v (wait_enter-Counted v.users e)
Step-Valid {s} (rewaits others e) v = wait-Valid s others refl v (rw⁻¹ e v.users)
Step-Valid {s} (begins others e) v =
    let w = v.workers in
    worker-Valid (record s { fresh = others }) v.users
      (record {
        working = w.working;
        sleeping = w.sleeping;
        total = omega (arith, w.total);
        hired = w.hired;
        closed = w.closed;
        drained = w.drained;
      })
      v.fifo v.counters.tally v.counters.flow
Step-Valid {s} (awakes others e) v =
    worker-Valid (record s { asleep = others })
      (unfold worker_wake in Counted-kept _ refl refl refl refl refl v.users)
      (worker_wake-Staffed (rw⁻¹ e v.workers))
      (unfold worker_wake in Ordered-kept _ refl refl refl refl refl refl v.fifo)
      (unfold worker_wake in Tallied-kept _ refl refl refl refl refl (omega arith) v.counters.tally)
      v.counters.flow
Step-Valid {s} (finishes before after task e) v =
    let n : length s.working ≡ suc (length (before ++ after)) =
      ap length e ∙ length-insert before after task in
    worker-Valid (record s { working = before ++ after; finished = s.finished + 1 })
      (unfold finish in Counted-kept _ refl refl refl refl refl v.users)
      (finish-Staffed (rw⁻¹ n v.workers))
      (unfold finish in Ordered-kept _ refl refl refl refl refl refl v.fifo)
      (finish-Tallied v.counters.tally) (omega (arith, v.counters.flow))
Step-Valid {s} (closes safe_exit tasks n pool wakes e) v =
    let c = destroy_begin-Closed false safe_exit e in
    record {
      users = Closed-Users c v.users;
      workers = Closed-Staffed c v.workers;
      fifo = Closed-Ordered c v.fifo;
      counters = record {
        tally = Closed-Tallied s.dropped c v.counters.tally;
        flow = v.counters.flow;
      };
    }
Step-Valid {s} (ends a b c) v =
    let w = v.workers in
    let drained : s.pool.queue_length ≡ 0 = w.drained (omega (arith, w.hired)) in
    record {
      users = unfold destroy_end in Counted-kept _ refl refl refl refl refl v.users;
      workers = unfold destroy_end in Staffed-kept _ refl refl refl (λ h. (h, omega arith)) w;
      fifo = end-Ordered a drained v.fifo;
      counters = record {
        tally =
            unfold destroy_end in
            Tallied-kept _ refl refl refl refl refl (omega arith) v.counters.tally;
        flow = v.counters.flow;
      };
    }
Step-Valid {s} (retains pool e) v =
    let kept = retain-references s.pool pool e in
    quiet pool s.clients (ap work kept) v
      (rw kept (Counted-kept _ refl refl refl refl refl v.users))
Step-Valid {s} (releases pool freed e) v =
    let kept = release-references s.pool pool freed e in
    quiet pool s.clients (ap work kept) v
      (rw kept (Counted-kept _ refl refl refl refl refl v.users))

-- What happens from the creation of a pool on.
pub data Reachable (first : System) : System → Type 0 where
  here : Reachable first first
  after : {s t : System} → Reachable first s → Step s t → Reachable first t

-- Whatever holds at the start and is kept by every step holds everywhere.
pub reach-Valid : {first s : System} → Valid first → Reachable first s → Valid s
reach-Valid v here = v
reach-Valid v (after r step) = Step-Valid step (reach-Valid v r)

-- The system around a new pool.
unfoldable pub start : Pool → System
start pool = record {
  pool = pool;
  submitters = [];
  clients = 0;
  fresh = pool.n_workers;
  asleep = 0;
  working = [];
  exited = 0;
  history = [];
  started = [];
  finished = 0;
  dropped = [];
}
