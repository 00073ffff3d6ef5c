-- ===== src/ThreadPool/Calls.antt =====
-- What single calls of threadpool.c do to the ring, to sleepers and to later calls.
use mathlib.Core.List.{append-nil}
use stdc.Prelude.{
  ℕ, zero, suc, ◌+◌, ◌-◌, ◌^◌, ◌<◌, ◌≡◌, ◌≢◌, refl, sym, ap, ◌∙◌, Bool, true, false, ◌&&◌, inl, inr,
  none, some, List, [], ◌∷◌, ◌++◌, arith, ltb, leb, ◌==◌, if◌then◌else◌, Bool-cases, length,
  replicate, min,
}
use stdc.ThreadPool.Control.{destroy_begin, wait_enter, retain, release, is_busy}
use stdc.ThreadPool.Outcome.{
  Tried, blocked, asleep, refused, stored, submit_try-Tried, Closed, safely, at_once, discard,
  destroy_begin-Closed,
}
use stdc.ThreadPool.Pool.{
  Pool, notify, all_idle, Wake, signal, broadcast, Attempt, returns, waits, inc32, dec32, leave,
  submit_leave, signal_idle,
}
use stdc.ThreadPool.Ring.Laws.{length-read_tasks}
use stdc.ThreadPool.Ring.{Task, read_tasks}
use stdc.ThreadPool.Submit.{submit_enter, submit_try, notify_workers, store_batch}
use stdc.ThreadPool.System.Fifo.{contents, IsRing, store_batch-contents}
use stdc.ThreadPool.Worker.{finish}

-- The tasks of a batch that an outcome takes over.
unfoldable pub taken : Attempt → List Task → List Task
taken (returns zero) tasks = tasks
taken (returns (suc status)) tasks = []
taken waits tasks = []

Tried-contents :
    {pool : Pool} (tasks : List Task) {out : Attempt × Pool × List Wake}
    → IsRing pool
    → Tried pool tasks out
    → contents out.1 ≡ contents pool ++ taken out.0 tasks
unfolding taken submit_leave leave contents
Tried-contents {pool} tasks r (blocked a b) = sym (append-nil (contents pool))
Tried-contents {pool} tasks r (asleep a b) = sym (append-nil (contents pool))
Tried-contents {pool} tasks r (refused a) = sym (append-nil (contents pool))
Tried-contents {pool} tasks r (stored running fits) = (store_batch-contents tasks r running fits).1

-- On a well-formed ring, a round of `threadpool_add_batch` that returns 0 appends the whole batch
-- to the ring, in order; one that returns another status, or sleeps, leaves the tasks in the ring
-- as they are.
pub submit_try-contents :
    (block current : Bool) (pool : Pool) (tasks : List Task)
    → IsRing pool
    → contents (submit_try block current pool tasks).1
      ≡ contents pool ++ taken (submit_try block current pool tasks).0 tasks
submit_try-contents block current pool tasks r =
    Tried-contents tasks r (submit_try-Tried block current pool tasks)

-- Whether a list of wake-ups wakes all clients of `threadpool_wait`.
unfoldable pub wakes_clients : List Wake → Bool
wakes_clients [] = false
wakes_clients (broadcast all_idle ∷ wakes) = true
wakes_clients (wake ∷ wakes) = wakes_clients wakes

wakes_clients-append :
    (before after : List Wake) → wakes_clients after ≡ true → wakes_clients (before ++ after) ≡ true
unfolding wakes_clients
wakes_clients-append [] after h = h
wakes_clients-append (broadcast all_idle ∷ before) after h = refl
wakes_clients-append (wake ∷ before) after h = wakes_clients-append before after h

signal_idle-wakes :
    (pool : Pool) (wakes : List Wake)
    → pool.waiting_clients ≢ 0
    → is_busy pool ≡ false
    → wakes_clients (signal_idle pool ++ wakes) ≡ true
unfolding wakes_clients signal_idle is_busy
signal_idle-wakes pool wakes h i = ground arith

Tried-wakes :
    {pool : Pool} (tasks : List Task) {out : Attempt × Pool × List Wake}
    → Tried pool tasks out
    → out.0 ≢ waits
    → out.1.waiting_clients ≢ 0
    → is_busy out.1 ≡ false
    → wakes_clients out.2 ≡ true
unfolding submit_leave leave is_busy
Tried-wakes tasks (asleep a b) w h i = absurd (w refl)
Tried-wakes {pool} tasks (blocked a b) w h i = signal_idle-wakes _ _ h (unfold is_busy in i)
Tried-wakes {pool} tasks (refused a) w h i = signal_idle-wakes _ _ h (unfold is_busy in i)
Tried-wakes {pool} tasks (stored a b) w h i =
    wakes_clients-append (notify_workers (store_batch pool tasks) (length tasks)) _
      (signal_idle-wakes _ _ h (unfold is_busy in i))

-- No client misses the moment in which the pool is idle: a worker that finishes a task, and a
-- submission that returns, broadcast to the clients of threadpool_wait if any sleeps and they leave
-- the pool with no task queued, running or being submitted.
pub idle-wakes :
    (block current : Bool) (pool : Pool) (tasks : List Task)
    → ((finish pool).0.waiting_clients ≢ 0
        → is_busy (finish pool).0 ≡ false
        → wakes_clients (finish pool).1 ≡ true)
      × ((submit_try block current pool tasks).0 ≢ waits
          → (submit_try block current pool tasks).1.waiting_clients ≢ 0
          → is_busy (submit_try block current pool tasks).1 ≡ false
          → wakes_clients (submit_try block current pool tasks).2 ≡ true)
idle-wakes block current pool tasks = (
  (λ h i.
      ap wakes_clients (sym (append-nil (finish pool).1))
      ∙ unfold finish in signal_idle-wakes _ [] h i),
  Tried-wakes tasks (submit_try-Tried block current pool tasks),
)

-- How many of `n` sleeping workers a list of wake-ups wakes.
unfoldable pub woken : ℕ → List Wake → ℕ
woken n [] = 0
woken n (signal notify ∷ wakes) = min n (woken n wakes + 1)
woken n (broadcast notify ∷ wakes) = n
woken n (wake ∷ wakes) = woken n wakes

woken-replicate : (n c : ℕ) → woken n (replicate c (signal notify)) ≡ min c n
unfolding woken replicate
woken-replicate n zero = omega arith
woken-replicate n (suc c) = omega (arith, woken-replicate n c)

-- Of the workers that sleep, `threadpool_add_batch` wakes one for each task of the batch, or all,
-- if these are fewer.
pub notify_workers-woken :
    (pool : Pool) (count : ℕ)
    → woken pool.waiting_workers (notify_workers pool count) ≡ min count pool.waiting_workers
unfolding notify_workers
notify_workers-woken pool count = elim (Bool-cases (pool.waiting_workers == 0)) [
  | inl nobody ↦ simp nobody (unfold woken in ground arith)
  | inr somebody ↦ elim (Bool-cases (leb pool.waiting_workers count && ltb 1 count)) [
    | inl all ↦ simp (somebody, all) (unfold woken in ground arith)
    | inr few ↦ simp (somebody, few) (woken-replicate pool.waiting_workers count)
  ]
]

Closed-shutdown :
    {pool : Pool} {out : List Task × ℕ × Pool × List Wake} → Closed pool out → out.2.shutdown ≡ true
Closed-shutdown (safely e) = refl
Closed-shutdown (at_once e) = refl

Tried-closed :
    {pool : Pool} {tasks : List Task} {out : Attempt × Pool × List Wake}
    → Tried pool tasks out
    → pool.shutdown ≡ true
    → out.0 ≡ returns 1
Tried-closed (blocked a b) h = absurd (ground arith)
Tried-closed (asleep a b) h = absurd (ground arith)
Tried-closed (refused a) h = refl
Tried-closed (stored a b) h = absurd (ground arith)

-- A pool that `__threadpool_destroy__` has closed refuses each further call:
-- `threadpool_add_batch`, `threadpool_wait`, another destruction and a new reference; and a
-- submission that had slept returns 1.
pub closed-refuses :
    (current safe_exit : Bool) (pool after : Pool) (tasks batch : List Task) (n : ℕ)
    (wakes : List Wake)
    → destroy_begin current safe_exit pool ≡ some (tasks, n, after, wakes)
    → (submit_enter after batch ≡ none)
      × (wait_enter current after ≡ none)
      × (destroy_begin current safe_exit after ≡ none)
      × (retain after ≡ none)
      × ((block : Bool) → (submit_try block current after batch).0 ≡ returns 1)
closed-refuses current safe_exit pool after tasks batch n wakes e =
    let shut : after.shutdown ≡ true = Closed-shutdown (destroy_begin-Closed current safe_exit e) in
    (
      unfold submit_enter in ground arith,
      unfold wait_enter in ground arith,
      unfold destroy_begin in ground arith,
      unfold retain in ground arith,
      λ block. Tried-closed (submit_try-Tried block current after batch) shut,
    )

-- The call of `__threadpool_destroy__` that closes a pool takes tasks out of the front of the
-- ring, in order, for their cleanup, and counts them: none if the exit is to be safe, and else
-- all.
pub destroy_begin-contents :
    (current safe_exit : Bool) (pool after : Pool) (tasks : List Task) (n : ℕ) (wakes : List Wake)
    → destroy_begin current safe_exit pool ≡ some (tasks, n, after, wakes)
    → (contents pool ≡ tasks ++ contents after)
      × (n ≡ length tasks)
      × (after.queue_length ≡ (if safe_exit then pool.queue_length else 0))
unfolding destroy_begin contents
destroy_begin-contents current true pool after tasks n wakes e =
    let none_taken : tasks ≡ [] = ground arith in
    let closing : after ≡ record pool { shutdown = true } = ground arith in
    let counted : n ≡ 0 = ground arith in rw (none_taken, closing, counted) (refl, refl, refl)
destroy_begin-contents current false pool after tasks n wakes e =
    let all_taken : tasks ≡ contents pool = ground arith in
    let closing : after ≡ discard pool = ground arith in
    let counted : n ≡ pool.queue_length = ground arith in
    rw (all_taken, closing, counted)
      (
        unfold read_tasks in sym (append-nil (contents pool)),
        sym (length-read_tasks pool.queue_capacity pool.queue_length pool.queue pool.queue_head),
        refl,
      )

-- With a positive number of references below 2 ^ 32, what `__threadpool_retain__` took
-- `__threadpool_release__` gives back: the pool is as before, and not freed.
pub release-retain :
    (pool kept : Pool)
    → 0 < pool.references
    → pool.references < 2 ^ 32
    → retain pool ≡ some kept
    → release kept ≡ some (pool, false)
unfolding retain release
release-retain pool kept h k e =
    let counted : kept ≡ record pool { references = inc32 pool.references } = ground arith in
    let more : pool.references ≢ 2 ^ 32 - 1 = ground arith in
    let up : inc32 pool.references ≡ pool.references + 1 = ground arith in
    let first : (inc32 pool.references == 1) ≡ false = ground arith in
    let back : dec32 (inc32 pool.references) ≡ pool.references = omega (arith, up) in
    let held : (pool.references == 0) ≡ false = ground arith in
    rw counted (simp (first, back, held) refl)
