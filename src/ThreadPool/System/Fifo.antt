-- ===== src/ThreadPool/System/Fifo.antt =====
-- The order of the tasks in threadpool.c: the ring holds those that were accepted and neither
-- started nor discarded.
use mathlib.Core.List.{append-nil, append_assoc}
use stdc.Prelude.{
  ℕ, suc, ◌-◌, ◌≤◌, ◌<◌, ◌≡◌, refl, sym, ap, ap₂, ◌∙◌, true, false, List, [], ◌∷◌, ◌++◌, arith,
  length, get_or,
}
use stdc.ThreadPool.Control.{destroy_end}
use stdc.ThreadPool.Outcome.{
  Tried, blocked, asleep, refused, stored, Fetched, idles, leaves, works, dequeue, fetch-Fetched,
  Closed, safely, at_once,
}
use stdc.ThreadPool.Pool.{Pool, Wake, Attempt, leave, submit_leave}
use stdc.ThreadPool.Ring.Laws.{
  place, place-next, next-lt, length-store_tasks, store_tasks-append, length-read_tasks,
}
use stdc.ThreadPool.Ring.{Task, zeroed, read_tasks}
use stdc.ThreadPool.Submit.{store_batch}
use stdc.ThreadPool.System.{System, settle_submit, settle_worker}
use stdc.ThreadPool.Worker.{Fetch, fetch}

-- The tasks in the ring, the next one first.
unfoldable pub contents : Pool → List Task
contents pool = read_tasks pool.queue_capacity pool.queue_length pool.queue pool.queue_head

pub length-contents : (pool : Pool) → length (contents pool) ≡ pool.queue_length
unfolding contents
length-contents pool =
    length-read_tasks pool.queue_capacity pool.queue_length pool.queue pool.queue_head

-- The ring is well formed while the pool is open.
pub record IsRing (pool : Pool) : Type 0 where
  pub room : pool.queue_length ≤ pool.queue_capacity
  pub head : pool.queue_head < pool.queue_capacity
  pub whole : pool.shutdown ≡ false → length pool.queue ≡ pool.queue_capacity
  pub tail :
      pool.shutdown ≡ false
      → pool.queue_tail ≡ place pool.queue_capacity pool.queue_head pool.queue_length

pub record Ordered (pool : Pool) (history started dropped : List Task) : Type 0 where
  pub ring : IsRing pool
  pub order : history ≡ started ++ (dropped ++ contents pool)
  pub kept : pool.shutdown ≡ false → dropped ≡ []
  pub last : 0 < pool.queue_length → dropped ≡ []

abbrev pub Fifo : System → Type 0
Fifo s = Ordered s.pool s.history s.started s.dropped

-- Storing a batch that fits appends it, as a whole and in order.
pub store_batch-contents :
    {pool : Pool} (tasks : List Task)
    → IsRing pool
    → pool.shutdown ≡ false
    → length tasks ≤ pool.queue_capacity - pool.queue_length
    → IsRing (store_batch pool tasks) × (contents (store_batch pool tasks) ≡ contents pool ++ tasks)
unfolding store_batch contents
store_batch-contents {pool} tasks r running fits =
    let room = r.room in
    let appended =
      store_tasks-append pool.queue_capacity pool.queue_length pool.queue_head tasks pool.queue
        pool.queue_tail (r.whole running) r.head (omega arith) (r.tail running) in
    (
      record {
        room = omega arith;
        head = r.head;
        whole = λ _.
            length-store_tasks pool.queue_capacity tasks pool.queue pool.queue_tail
            ∙ r.whole running;
        tail = λ _. appended.1;
      },
      appended.0,
    )

-- A worker takes the first task.
pub dequeue-contents :
    {pool : Pool}
    → IsRing pool
    → 0 < pool.queue_length
    → IsRing (dequeue pool)
      × (contents pool ≡ get_or pool.queue pool.queue_head zeroed ∷ contents (dequeue pool))
unfolding contents
dequeue-contents {pool} r some_task =
    let room = r.room in
    let n : pool.queue_length ≡ suc (pool.queue_length - 1) = omega arith in
    (
      record {
        room = omega arith;
        head = next-lt pool.queue_capacity pool.queue_head r.head;
        whole = r.whole;
        tail = λ h.
            r.tail h
            ∙ ap (place pool.queue_capacity pool.queue_head) (omega arith)
            ∙ sym (
                place-next pool.queue_capacity pool.queue_head (pool.queue_length - 1) r.head
                  (omega arith));
      },
      ap (λ m. read_tasks pool.queue_capacity m pool.queue pool.queue_head) n
          ∙ unfold read_tasks in refl,
    )

-- A call that leaves the ring alone.
pub Ordered-kept :
    {pool : Pool} {history started dropped : List Task} (after : Pool)
    → after.queue ≡ pool.queue
    → after.queue_capacity ≡ pool.queue_capacity
    → after.queue_head ≡ pool.queue_head
    → after.queue_tail ≡ pool.queue_tail
    → after.queue_length ≡ pool.queue_length
    → after.shutdown ≡ pool.shutdown
    → Ordered pool history started dropped
    → Ordered after history started dropped
unfolding contents
Ordered-kept {pool} after a b c d e f o =
    let open_before : after.shutdown ≡ false → pool.shutdown ≡ false = λ h. sym f ∙ h in
    record {
      ring = record {
        room = omega (arith, o.ring.room);
        head = omega (arith, o.ring.head);
        whole = λ h. ap length a ∙ o.ring.whole (open_before h) ∙ sym b;
        tail = λ h. let t = o.ring.tail (open_before h) in cc (t, b, c, d, e);
      };
      order = let t = o.order in cc (t, a, b, c, e);
      kept = λ h. o.kept (open_before h);
      last = λ h. o.last (omega arith);
    }

pub submit-Fifo :
    {pool : Pool} (s : System) (others : List (List Task)) (tasks : List Task)
    {out : Attempt × Pool × List Wake}
    → Tried pool tasks out
    → Ordered pool s.history s.started s.dropped
    → Fifo (settle_submit s others tasks out)
unfolding settle_submit submit_leave leave
submit-Fifo s others tasks (blocked a b) o = Ordered-kept _ refl refl refl refl refl refl o
submit-Fifo s others tasks (asleep a b) o = Ordered-kept _ refl refl refl refl refl refl o
submit-Fifo s others tasks (refused a) o = Ordered-kept _ refl refl refl refl refl refl o
submit-Fifo {pool} s others tasks (stored running fits) o =
    let added = store_batch-contents tasks o.ring running fits in
    let none_dropped = o.kept running in
    Ordered-kept _ refl refl refl refl refl refl (record {
      ring = added.0;
      order =
          ap (λ t. t ++ tasks) o.order
          ∙ append_assoc s.started (s.dropped ++ contents pool) tasks
          ∙ ap (λ t. s.started ++ t) (append_assoc s.dropped (contents pool) tasks)
          ∙ ap (λ t. s.started ++ (s.dropped ++ t)) (sym added.1);
      kept = λ _. none_dropped;
      last = λ _. none_dropped;
    })

Fetched-Fifo :
    {pool : Pool} (s : System) {out : Fetch × Pool × List Wake}
    → Fetched pool out
    → Ordered pool s.history s.started s.dropped
    → Fifo (settle_worker s out)
unfolding settle_worker
Fetched-Fifo s (idles a b) o = Ordered-kept _ refl refl refl refl refl refl o
Fetched-Fifo s (leaves a b) o = o
Fetched-Fifo {pool} s (works some_task) o =
    let task = get_or pool.queue pool.queue_head zeroed in
    let taken = dequeue-contents o.ring some_task in
    let none_dropped : s.dropped ≡ [] = o.last some_task in
    record {
      ring = taken.0;
      order =
          o.order
          ∙ ap₂ (λ d c. s.started ++ (d ++ c)) none_dropped taken.1
          ∙ sym (append_assoc s.started (task ∷ []) (contents (dequeue pool)))
          ∙ ap (λ d. (s.started ++ task ∷ []) ++ (d ++ contents (dequeue pool))) (sym none_dropped);
      kept = o.kept;
      last = λ _. none_dropped;
    }

pub fetch-Fifo :
    {pool : Pool} (s : System)
    → Ordered pool s.history s.started s.dropped
    → Fifo (settle_worker s (fetch pool))
fetch-Fifo {pool} s o = Fetched-Fifo s (fetch-Fetched pool) o

-- Closing the pool discards nothing, or all that the ring holds.
pub Closed-Ordered :
    {pool : Pool} {history started dropped : List Task} {out : List Task × ℕ × Pool × List Wake}
    → Closed pool out
    → Ordered pool history started dropped
    → Ordered out.2 history started (dropped ++ out.0)
unfolding contents
Closed-Ordered {pool} {history} {started} {dropped} (safely running) o = record {
  ring = record {
    room = o.ring.room;
    head = o.ring.head;
    whole = λ _. o.ring.whole running;
    tail = λ _. o.ring.tail running;
  };
  order = o.order ∙ ap (λ d. started ++ (d ++ contents pool)) (sym (append-nil dropped));
  kept = λ h. absurd (ground arith);
  last = λ _. append-nil dropped ∙ o.kept running;
}
Closed-Ordered {pool} {history} {started} {dropped} (at_once running) o = record {
  ring = record {
    room = omega arith;
    head = o.ring.head;
    whole = λ h. absurd (ground arith);
    tail = λ h. absurd (ground arith);
  };
  order =
      o.order
      ∙ ap (λ d. started ++ d) (unfold read_tasks in sym (append-nil (dropped ++ contents pool)));
  kept = λ h. absurd (ground arith);
  last = λ h. absurd (omega arith);
}

-- The queue is freed when it is empty.
pub end-Ordered :
    {pool : Pool} {history started dropped : List Task}
    → pool.shutdown ≡ true
    → pool.queue_length ≡ 0
    → Ordered pool history started dropped
    → Ordered (destroy_end pool) history started dropped
unfolding contents destroy_end
end-Ordered {pool} {history} {started} {dropped} e z o =
    let empty : (queue : List Task)
        → read_tasks pool.queue_capacity pool.queue_length queue pool.queue_head ≡ [] =
      λ queue.
        ap (λ n. read_tasks pool.queue_capacity n queue pool.queue_head) z
        ∙ unfold read_tasks in refl in
    record {
      ring = record {
        room = o.ring.room;
        head = o.ring.head;
        whole = λ h. absurd (ground arith);
        tail = λ h. absurd (ground arith);
      };
      order = o.order ∙ ap (λ c. started ++ (dropped ++ c)) (empty pool.queue ∙ sym (empty []));
      kept = λ h. absurd (ground arith);
      last = o.last;
    }
