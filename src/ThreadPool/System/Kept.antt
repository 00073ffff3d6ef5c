-- ===== src/ThreadPool/System/Kept.antt =====
-- The invariant of the thread pool of threadpool.c, and what each of its functions does to it.
use stdc.Prelude.{
  ℕ, ◌+◌, ◌≡◌, refl, ap, ◌∙◌, Bool, false, not, ◌&&◌, inl, inr, some, List, arith, Bool-cases,
  length,
}
use stdc.ThreadPool.Control.{wait_enter, wait_try, is_busy, retain, release}
use stdc.ThreadPool.Outcome.{submit_try-Tried}
use stdc.ThreadPool.Pool.{Pool, Wake, Attempt, returns, waits, inc32, dec32, leave}
use stdc.ThreadPool.Ring.{Task}
use stdc.ThreadPool.Submit.{submit_try}
use stdc.ThreadPool.System.Counters.{
  Counters, Tallied, Tallied-kept, submit-Counters, fetch-Counters,
}
use stdc.ThreadPool.System.Fifo.{Ordered, Ordered-kept, Fifo, submit-Fifo, fetch-Fifo}
use stdc.ThreadPool.System.Users.{Counted, fetch-Users, Users, submit_try-Users, wait_try-Users}
use stdc.ThreadPool.System.Workers.{Staffed, Workers, fetch-Workers, Staffed-kept, submit-Workers}
use stdc.ThreadPool.System.{System, settle_submit, settle_wait, settle_worker}
use stdc.ThreadPool.Worker.{fetch}

pub record Valid (s : System) : Type 0 where
  pub users : Users s
  pub workers : Workers s
  pub fifo : Fifo s
  pub counters : Counters s

-- The pool but for its counts of calls and references.
abbrev pub work : Pool → Pool
work pool = record pool {
  references = 0;
  api_users = 0;
  pending_submissions = 0;
  waiting_submitters = 0;
  waiting_batches = 0;
  waiting_clients = 0;
}

Staffed-same :
    {before : Pool} {fresh asleep running exited k : ℕ} (after : Pool)
    → work after ≡ work before
    → Staffed before fresh asleep running exited k
    → Staffed after fresh asleep running exited k
Staffed-same after e w =
    Staffed-kept after (ap (λ p. p.n_working) e) (ap (λ p. p.waiting_workers) e)
      (ap (λ p. p.n_workers) e)
      (λ h. (ap (λ p. p.shutdown) e ∙ h, omega (arith, ap (λ p. p.queue_length) e))) w

Ordered-same :
    {before : Pool} {history started dropped : List Task} (after : Pool)
    → work after ≡ work before
    → Ordered before history started dropped
    → Ordered after history started dropped
Ordered-same after e o =
    Ordered-kept after (ap (λ p. p.queue) e) (ap (λ p. p.queue_capacity) e)
      (ap (λ p. p.queue_head) e) (ap (λ p. p.queue_tail) e) (ap (λ p. p.queue_length) e)
      (ap (λ p. p.shutdown) e) o

Tallied-same :
    {before : Pool} {history finished dropped : ℕ} (after : Pool)
    → work after ≡ work before
    → Tallied before history finished dropped
    → Tallied after history finished dropped
Tallied-same after e t =
    Tallied-kept after (ap (λ p. p.accepted) e) (ap (λ p. p.completed) e) (ap (λ p. p.discarded) e)
      (ap (λ p. p.queue_peak) e) (ap (λ p. p.queue_capacity) e)
      (omega (arith, ap (λ p. p.queue_length) e)) t

-- The system after a call that touches no task.
pub quiet :
    {s : System} (pool : Pool) (clients : ℕ)
    → work pool ≡ work s.pool
    → Valid s
    → Counted pool s.submitters clients 0
    → Valid (record s { pool = pool; clients = clients })
quiet {s} pool clients e v u = record {
  users = u;
  workers = Staffed-same pool e v.workers;
  fifo = Ordered-same pool e v.fifo;
  counters = record { tally = Tallied-same pool e v.counters.tally; flow = v.counters.flow };
}

wait_try-work : (pool : Pool) → work (wait_try pool).1 ≡ work pool
unfolding wait_try leave
wait_try-work pool = elim (Bool-cases (not pool.shutdown && is_busy pool)) [
  | inl busy ↦ rw busy refl
  | inr idle ↦ rw idle refl
]

pub wait_enter-work :
    (pool entered : Pool) → wait_enter false pool ≡ some entered → work entered ≡ work pool
unfolding wait_enter
wait_enter-work pool entered e =
    let counted : entered ≡ record pool {
      api_users = inc32 pool.api_users;
      waiting_clients = inc32 pool.waiting_clients;
    } =
      ground arith in
    ap work counted

pub submit-Valid :
    {pool : Pool} (s : System) (others : List (List Task)) (block current : Bool)
    (tasks : List Task)
    → work pool ≡ work s.pool
    → Valid s
    → Counted pool others s.clients 1
    → Valid (settle_submit s others tasks (submit_try block current pool tasks))
submit-Valid {pool} s others block current tasks e v u =
    let t = submit_try-Tried block current pool tasks in
    let o = Ordered-same pool e v.fifo in
    record {
      users = submit_try-Users s others block current tasks u;
      workers = submit-Workers s others tasks t (Staffed-same pool e v.workers);
      fifo = submit-Fifo s others tasks t o;
      counters =
          submit-Counters s others tasks t o.ring.room (Tallied-same pool e v.counters.tally)
            v.counters.flow;
    }

settled-Valid :
    (s : System) (others : ℕ) (out : Attempt × Pool × List Wake)
    → work out.1 ≡ work s.pool
    → Valid s
    → Users (settle_wait s others out)
    → Valid (settle_wait s others out)
unfolding settle_wait
settled-Valid s others (waits, after, wakes) e v u = quiet after (others + 1) e v u
settled-Valid s others (returns status, after, wakes) e v u = quiet after others e v u

pub wait-Valid :
    {pool : Pool} (s : System) (others : ℕ)
    → work pool ≡ work s.pool
    → Valid s
    → Counted pool s.submitters (others + 1) 0
    → Valid (settle_wait s others (wait_try pool))
wait-Valid {pool} s others e v u =
    settled-Valid s others (wait_try pool) (wait_try-work pool ∙ e) v (wait_try-Users s others u)

pub retain-references :
    (before pool : Pool)
    → retain before ≡ some pool
    → pool ≡ record before { references = pool.references }
unfolding retain
retain-references before pool e =
    let e' : pool ≡ record before { references = inc32 before.references } = ground arith in
    rw e' refl

pub release-references :
    (before pool : Pool) (freed : Bool)
    → release before ≡ some (pool, freed)
    → pool ≡ record before { references = pool.references }
unfolding release
release-references before pool freed e =
    let e' : pool ≡ record before { references = dec32 before.references } = ground arith in
    rw e' refl

pub worker-Valid :
    {pool : Pool} (s : System)
    → Counted pool s.submitters s.clients 0
    → Staffed pool s.fresh s.asleep (length s.working) s.exited 1
    → Ordered pool s.history s.started s.dropped
    → Tallied pool (length s.history) s.finished (length s.dropped)
    → length s.started ≡ s.finished + length s.working
    → Valid (settle_worker s (fetch pool))
worker-Valid s u w o t f = record {
  users = fetch-Users s u;
  workers = fetch-Workers s w;
  fifo = fetch-Fifo s o;
  counters = fetch-Counters s t f;
}
