-- ===== src/ThreadPool/System/Promises.antt =====
-- What callers of threadpool.c can rely on in every reachable state.
use mathlib.Core.List.{append-nil}
use stdc.Prelude.{
  ℕ, ◌∙◌, ◌+◌, ◌≤◌, ◌<◌, ◌≡◌, refl, sym, ap, Bool, false, inl, inr, some, List, [], ◌∷◌, ◌++◌,
  arith, length, length-append, length-replicate, replicate, subst, ◌⊎◌,
}
use stdc.ThreadPool.Control.{is_positive, create, wait_enter, wait_try, is_busy, stats}
use stdc.ThreadPool.Pool.{Pool, returns, inc32, leave}
use stdc.ThreadPool.Ring.Laws.{place-zero}
use stdc.ThreadPool.Ring.{zeroed, read_tasks}
use stdc.ThreadPool.System.Counters.{saturate}
use stdc.ThreadPool.System.Fifo.{contents, length-contents}
use stdc.ThreadPool.System.Kept.{Valid}
use stdc.ThreadPool.System.Reach.{Reachable, reach-Valid, start}
use stdc.ThreadPool.System.Users.{batches}
use stdc.ThreadPool.System.{System}

length-zero {ℓ} : {A : Type ℓ} (xs : List A) → length xs ≡ 0 → xs ≡ []
length-zero [] e = refl
length-zero (x ∷ xs) e = absurd (omega arith)

create-pool :
    (size : ℕ) (a i : Bool) (n capacity : ℕ) {pool : Pool}
    → create size a i n capacity ≡ some pool
    → (0 < n)
      × (0 < capacity)
      × (pool ≡ record {
        references = 1;
        api_users = 0;
        pending_submissions = 0;
        waiting_submitters = 0;
        waiting_batches = 0;
        waiting_clients = 0;
        waiting_workers = 0;
        shutdown = false;
        destroyed = false;
        n_workers = n;
        n_working = 0;
        queue = replicate capacity zeroed;
        queue_length = 0;
        queue_capacity = capacity;
        queue_head = 0;
        queue_tail = 0;
        queue_peak = 0;
        accepted = 0;
        completed = 0;
        discarded = 0;
      })
unfolding create is_positive
create-pool size a i n capacity e = (ground arith, ground arith, ground arith)

create-Valid :
    (size : ℕ) (a i : Bool) (n capacity : ℕ) {pool : Pool}
    → create size a i n capacity ≡ some pool
    → Valid (start pool)
unfolding start
create-Valid size a i n capacity e =
    let (hired, room, made) = create-pool size a i n capacity e in
    rw made record {
      users = record {
        pending = refl;
        sleeping = refl;
        wide = unfold batches in refl;
        waiting = refl;
        users = refl;
        bounded = omega arith;
      };
      workers = record {
        working = refl;
        sleeping = refl;
        total = omega arith;
        hired = hired;
        closed = λ h. absurd (omega arith);
        drained = λ h. absurd (omega arith);
      };
      fifo = record {
        ring = record {
          room = omega arith;
          head = room;
          whole = λ _. length-replicate capacity zeroed;
          tail = λ _. sym (place-zero capacity 0 room);
        };
        order = unfold contents read_tasks in refl;
        kept = λ _. refl;
        last = λ h. absurd (omega arith);
      };
      counters = record {
        tally = record {
          accepted = refl;
          completed = refl;
          discarded = refl;
          peak = omega arith;
          peak_fits = omega arith;
        };
        flow = refl;
      };
    }

-- A call of `threadpool_wait` that returns 0 has met an idle pool.
idle-before :
    (pool entered : Pool)
    → (wait_enter false pool ≡ some entered) ⊎ (entered ≡ pool)
    → (wait_try entered).0 ≡ returns 0
    → (pool.shutdown ≡ false)
      × (pool.queue_length ≡ 0)
      × (pool.n_working ≡ 0)
      × (pool.pending_submissions ≡ 0)
unfolding wait_try leave is_busy wait_enter
idle-before pool entered (inl e) h =
    let counted : entered ≡ record pool {
      api_users = inc32 pool.api_users;
      waiting_clients = inc32 pool.waiting_clients;
    } =
      ground arith in
    let h' = subst (λ p. (wait_try p).0 ≡ returns 0) counted h in
    (ground arith, ground arith, ground arith, ground arith)
idle-before pool entered (inr e) h =
    let h' = subst (λ p. (wait_try p).0 ≡ returns 0) e h in
    (ground arith, ground arith, ground arith, ground arith)

module _ (size : ℕ) (allocated initialized : Bool) (n capacity : ℕ) {pool : Pool}
    (made : create size allocated initialized n capacity ≡ some pool) {s : System}
    (reached : Reachable (start pool) s) where
  valid : Valid s
  valid = reach-Valid (create-Valid size allocated initialized n capacity made) reached

  -- In every state that a pool reaches, whatever the order of its threads, the tasks accepted so
  -- far are, in the order of their acceptance: those started, in this same order, then those that
  -- a closing call discarded, then those in the ring.
  pub reach-order : s.history ≡ s.started ++ (s.dropped ++ contents s.pool)
  reach-order = valid.fifo.order

  in_progress :
      length s.history
      ≡ s.finished + (stats s.pool).active_tasks + length s.dropped + (stats s.pool).queued_tasks
  unfolding stats
  in_progress =
      let v = valid in
      omega (
        arith,
        ap length v.fifo.order,
        length-append s.started (s.dropped ++ contents s.pool),
        length-append s.dropped (contents s.pool),
        length-contents s.pool,
        v.counters.flow,
        v.workers.working,
      )

  -- In every state that a pool reaches, the accepted tasks are divided into those started, those
  -- discarded and those in the ring, each in one of these and once, in the order of acceptance; of
  -- those started every one has finished or runs, and threadpool_stats reports how many run, how many
  -- are in the ring, and the totals up to the largest uint64; the queue never exceeds its peak, nor
  -- the peak the capacity; and no more workers run or sleep than there are.
  pub reach-conserved :
      (s.history ≡ s.started ++ (s.dropped ++ contents s.pool))
      × (length s.started ≡ s.finished + (stats s.pool).active_tasks)
      × (length (contents s.pool) ≡ (stats s.pool).queued_tasks)
      × ((stats s.pool).accepted ≡ saturate (length s.history))
      × ((stats s.pool).completed ≡ saturate s.finished)
      × ((stats s.pool).discarded ≡ saturate (length s.dropped))
      × ((stats s.pool).queued_tasks ≤ (stats s.pool).queue_peak)
      × ((stats s.pool).queue_peak ≤ (stats s.pool).queue_capacity)
      × ((stats s.pool).active_tasks + (stats s.pool).idle_workers ≤ (stats s.pool).workers)
  unfolding stats
  reach-conserved =
      let v = valid in
      let c = v.counters in
      let w = v.workers in
      (
        v.fifo.order,
        omega (arith, c.flow, w.working),
        length-contents s.pool,
        c.tally.accepted,
        c.tally.completed,
        c.tally.discarded,
        c.tally.peak,
        c.tally.peak_fits,
        omega (arith, w.working, w.sleeping, w.total),
      )

  -- In every state that a pool reaches, the unsigned counters of calls are exact: they count the
  -- calls that sleep in threadpool_add_batch, those of them with more than one task, those in
  -- threadpool_wait, and all of these, without a wrap-around.
  pub reach-calls :
      (s.pool.waiting_submitters ≡ length s.submitters)
      × (s.pool.pending_submissions ≡ length s.submitters)
      × (s.pool.waiting_batches ≡ batches s.submitters)
      × (s.pool.waiting_clients ≡ s.clients)
      × (s.pool.api_users ≡ length s.submitters + s.clients)
  reach-calls =
      let u = valid.users in
      (u.sleeping, omega (arith, u.pending), u.wide, u.waiting, omega (arith, u.users))

  -- When threadpool_wait returns 0 in a reachable state, at once or after it has slept, every task
  -- that was accepted has finished, none was discarded, and no submission is in progress.
  pub wait_try-done :
      (entered : Pool)
      → (wait_enter false s.pool ≡ some entered) ⊎ (entered ≡ s.pool)
      → (wait_try entered).0 ≡ returns 0
      → (s.finished ≡ length s.history) × (s.dropped ≡ []) × (s.submitters ≡ [])
  unfolding stats
  wait_try-done entered way h =
      let v = valid in
      let (running, length_lem, working, pending) = idle-before s.pool entered way h in
      let none_dropped = v.fifo.kept running in
      (
        omega (arith, in_progress, ap length none_dropped, length_lem, working),
        none_dropped,
        length-zero s.submitters (omega (arith, v.users.pending, pending)),
      )

  -- When every worker has left its loop, which is what __threadpool_destroy__ waits for before it
  -- frees the queue, the accepted tasks are, in the order of their acceptance, those that were
  -- started, all of which have finished, and those that were discarded, and the ring is empty.
  pub end-done :
      s.exited ≡ s.pool.n_workers
      → (s.history ≡ s.started ++ s.dropped)
        × (length s.started ≡ s.finished)
        × (contents s.pool ≡ [])
  unfolding stats
  end-done h =
      let v = valid in
      let w = v.workers in
      let drained = w.drained (omega (arith, w.hired)) in
      let left : contents s.pool ≡ [] =
        length-zero (contents s.pool) (omega (arith, length-contents s.pool, drained)) in
      (
        v.fifo.order
            ∙ ap (λ t. s.started ++ (s.dropped ++ t)) left
            ∙ ap (λ t. s.started ++ t) (append-nil s.dropped),
        omega (arith, v.counters.flow, w.working, w.total),
        left,
      )
