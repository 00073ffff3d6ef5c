-- ===== src/ThreadPool/System/Users.antt =====
-- The counters of calls in progress in threadpool.c: `api_users`, `pending_submissions`,
-- `waiting_submitters`, `waiting_batches` and `waiting_clients`.
use stdc.Prelude.{
  ℕ, suc, ◌+◌, ◌-◌, ◌^◌, ◌≤◌, ◌<◌, ◌≡◌, ◌≢◌, refl, ap, ◌∙◌, Bool, false, not, ◌&&◌, ◌||◌, inl, inr,
  some, List, [], ◌∷◌, ◌++◌, arith, ltb, if◌then◌else◌, Bool-cases, length,
}
use stdc.ThreadPool.Control.{wait_enter, wait_try, is_busy}
use stdc.ThreadPool.Outcome.{Fetched, idles, leaves, works, fetch-Fetched, Closed, safely, at_once}
use stdc.ThreadPool.Pool.{Pool, Wake, inc32, leave, submit_leave}
use stdc.ThreadPool.Ring.{Task}
use stdc.ThreadPool.Submit.{
  submit_enter, submit_try, submit_wake, store_batch, submit_enter-Entered,
}
use stdc.ThreadPool.System.{System, settle_submit, settle_wait, settle_worker}
use stdc.ThreadPool.Worker.{Fetch, fetch}

abbrev pub batch : List Task → ℕ
batch tasks = if ltb 1 (length tasks) then 1 else 0

unfoldable pub batches : List (List Task) → ℕ
batches [] = 0
batches (tasks ∷ others) = batch tasks + batches others

batches-le : (calls : List (List Task)) → batches calls ≤ length calls
unfolding batches
batches-le [] = omega arith
batches-le (tasks ∷ others) = ground (arith, batches-le others)

batches-insert :
    (before after : List (List Task)) (tasks : List Task)
    → batches (before ++ tasks ∷ after) ≡ batch tasks + batches (before ++ after)
unfolding batches
batches-insert [] after tasks = refl
batches-insert (x ∷ before) after tasks = omega (arith, batches-insert before after tasks)

pub length-insert {ℓ} :
    {A : Type ℓ} (before after : List A) (a : A)
    → length (before ++ a ∷ after) ≡ suc (length (before ++ after))
length-insert [] after a = refl
length-insert (x ∷ before) after a = ap suc (length-insert before after a)

-- The counters stand for the calls that sleep and `k` calls of `threadpool_add_batch` that run.
pub record Counted (pool : Pool) (submitters : List (List Task)) (clients k : ℕ) : Type 0 where
  pub pending : pool.pending_submissions ≡ length submitters + k
  pub sleeping : pool.waiting_submitters ≡ length submitters
  pub wide : pool.waiting_batches ≡ batches submitters
  pub waiting : pool.waiting_clients ≡ clients
  pub users : pool.api_users ≡ length submitters + k + clients
  pub bounded : length submitters + k + clients < 2 ^ 32

abbrev pub Users : System → Type 0
Users s = Counted s.pool s.submitters s.clients 0

submit_leave-Counted :
    {pool : Pool} {calls : List (List Task)} {n : ℕ}
    → Counted pool calls n 1
    → Counted (submit_leave pool).0 calls n 0
unfolding submit_leave leave
submit_leave-Counted c = record {
  pending = omega (arith, c.pending, c.bounded);
  sleeping = c.sleeping;
  wide = c.wide;
  waiting = c.waiting;
  users = omega (arith, c.users, c.bounded);
  bounded = omega (arith, c.bounded);
}

pub submit_enter-Counted :
    {pool entered : Pool} {calls : List (List Task)} {n : ℕ} (tasks : List Task)
    → Counted pool calls n 0
    → submit_enter pool tasks ≡ some entered
    → Counted entered calls n 1
submit_enter-Counted {pool} {entered} tasks c e =
    let g = submit_enter-Entered pool entered tasks e in
    rw g.counted record {
      pending = omega (arith, c.pending, c.bounded);
      sleeping = c.sleeping;
      wide = c.wide;
      waiting = c.waiting;
      users = omega (arith, c.users, c.bounded);
      bounded = ground (arith, g.free, c.users, c.bounded);
    }

pub submit_wake-Counted :
    {pool : Pool} {n : ℕ} (before after : List (List Task)) (tasks : List Task)
    → Counted pool (before ++ tasks ∷ after) n 0
    → Counted (submit_wake pool (length tasks)) (before ++ after) n 1
unfolding submit_wake
submit_wake-Counted {pool} before after tasks c =
    let l = length-insert before after tasks in
    let b = batches-insert before after tasks in
    let small = batches-le (before ++ after) in
    record {
      pending = omega (arith, c.pending);
      sleeping = omega (arith, c.sleeping, c.bounded);
      wide = ground (arith, c.wide, c.bounded);
      waiting = c.waiting;
      users = omega (arith, c.users);
      bounded = omega (arith, c.bounded);
    }

sleep-Counted :
    {pool : Pool} {calls : List (List Task)} {n : ℕ} (tasks : List Task)
    → Counted pool calls n 1
    → Counted
        (record pool {
          waiting_submitters = inc32 pool.waiting_submitters;
          waiting_batches =
              if ltb 1 (length tasks) then inc32 pool.waiting_batches else pool.waiting_batches;
        })
        (tasks ∷ calls)
        n
        0
unfolding batches
sleep-Counted {pool} {calls} tasks c =
    let small = batches-le calls in
    record {
      pending = omega (arith, c.pending);
      sleeping = omega (arith, c.sleeping, c.bounded);
      wide = ground (arith, c.wide, c.bounded);
      waiting = c.waiting;
      users = omega (arith, c.users);
      bounded = omega (arith, c.bounded);
    }

store_batch-Counted :
    {pool : Pool} {calls : List (List Task)} {n : ℕ} (tasks : List Task)
    → Counted pool calls n 1
    → Counted (store_batch pool tasks) calls n 1
unfolding store_batch
store_batch-Counted tasks c = record {
  pending = c.pending;
  sleeping = c.sleeping;
  wide = c.wide;
  waiting = c.waiting;
  users = c.users;
  bounded = c.bounded;
}

pub submit_try-Users :
    {pool : Pool} (s : System) (others : List (List Task)) (block current : Bool)
    (tasks : List Task)
    → Counted pool others s.clients 1
    → Users (settle_submit s others tasks (submit_try block current pool tasks))
unfolding submit_try settle_submit
submit_try-Users {pool} s others block current tasks c =
    elim (Bool-cases
      (ltb (pool.queue_capacity - pool.queue_length) (length tasks) && not pool.shutdown)) [
        | inl full ↦ elim (Bool-cases (not block || current)) [
          | inl refused ↦ rw (full, refused) (submit_leave-Counted c)
          | inr patient ↦ rw (full, patient) (sleep-Counted tasks c)
        ]
        | inr room ↦ elim (Bool-cases pool.shutdown) [
          | inl closing ↦ rw room (simp closing (submit_leave-Counted c))
          | inr running ↦
              rw room (simp running (submit_leave-Counted (store_batch-Counted tasks c)))
        ]
      ]

pub wait_try-Users :
    {pool : Pool} (s : System) (others : ℕ)
    → Counted pool s.submitters (others + 1) 0
    → Users (settle_wait s others (wait_try pool))
unfolding wait_try settle_wait leave
wait_try-Users {pool} s others c = elim (Bool-cases (not pool.shutdown && is_busy pool)) [
  | inl busy ↦ rw busy c
  | inr idle ↦ rw idle record {
    pending = c.pending;
    sleeping = c.sleeping;
    wide = c.wide;
    waiting = omega (arith, c.waiting, c.bounded);
    users = omega (arith, c.users, c.bounded);
    bounded = omega (arith, c.bounded);
  }
]

pub wait_enter-Counted :
    {pool entered : Pool} {calls : List (List Task)} {n : ℕ}
    → Counted pool calls n 0
    → wait_enter false pool ≡ some entered
    → Counted entered calls (n + 1) 0
unfolding wait_enter
wait_enter-Counted {pool} {entered} c e =
    let counted : entered ≡ record pool {
      api_users = inc32 pool.api_users;
      waiting_clients = inc32 pool.waiting_clients;
    } =
      ground arith in
    let free : pool.api_users ≢ 2 ^ 32 - 1 = ground arith in
    rw counted record {
      pending = c.pending;
      sleeping = c.sleeping;
      wide = c.wide;
      waiting = omega (arith, c.waiting, c.bounded);
      users = omega (arith, c.users, c.bounded);
      bounded = ground (arith, free, c.users, c.bounded);
    }

-- A worker moves none of these counters.
pub Counted-kept :
    {pool : Pool} {calls : List (List Task)} {n k : ℕ} (after : Pool)
    → after.pending_submissions ≡ pool.pending_submissions
    → after.waiting_submitters ≡ pool.waiting_submitters
    → after.waiting_batches ≡ pool.waiting_batches
    → after.waiting_clients ≡ pool.waiting_clients
    → after.api_users ≡ pool.api_users
    → Counted pool calls n k
    → Counted after calls n k
Counted-kept after a b d e f c = record {
  pending = a ∙ c.pending;
  sleeping = b ∙ c.sleeping;
  wide = d ∙ c.wide;
  waiting = e ∙ c.waiting;
  users = f ∙ c.users;
  bounded = c.bounded;
}

Fetched-Users :
    {pool : Pool} (s : System) {out : Fetch × Pool × List Wake}
    → Fetched pool out
    → Counted pool s.submitters s.clients 0
    → Users (settle_worker s out)
unfolding settle_worker
Fetched-Users s (idles a b) c = Counted-kept _ refl refl refl refl refl c
Fetched-Users s (leaves a b) c = c
Fetched-Users s (works a) c = Counted-kept _ refl refl refl refl refl c

pub fetch-Users :
    {pool : Pool} (s : System)
    → Counted pool s.submitters s.clients 0
    → Users (settle_worker s (fetch pool))
fetch-Users {pool} s c = Fetched-Users s (fetch-Fetched pool) c

pub Closed-Users :
    {pool : Pool} {calls : List (List Task)} {n : ℕ} {out : List Task × ℕ × Pool × List Wake}
    → Closed pool out
    → Counted pool calls n 0
    → Counted out.2 calls n 0
Closed-Users (safely e) c = Counted-kept _ refl refl refl refl refl c
Closed-Users (at_once e) c = Counted-kept _ refl refl refl refl refl c
