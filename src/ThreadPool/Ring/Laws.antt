-- ===== src/ThreadPool/Ring/Laws.antt =====
-- The ring as a queue: storing at the tail appends, and what is read starts at the head.
use mathlib.Core.List.{append-nil, append_assoc}
use stdc.Prelude.{
  ℕ, zero, suc, ◌+◌, ◌-◌, ◌≤◌, ◌<◌, ◌≡◌, ◌≢◌, refl, sym, ap, ap₂, ◌∙◌, List, [], ◌∷◌, ◌++◌, arith,
  ltb, if◌then◌else◌, length, get_or, set, length-set, get_or-set_self, get_or-set_ne,
}
use stdc.ThreadPool.Ring.{Task, zeroed, next, store_tasks, read_tasks}

-- The index `n` places behind `head`.
unfoldable pub place : ℕ → ℕ → ℕ → ℕ
place capacity head n = if ltb (head + n) capacity then head + n else head + n - capacity

pub next-lt : (capacity index : ℕ) → index < capacity → next capacity index < capacity
unfolding next
next-lt capacity index h = ground arith

pub place-lt :
    (capacity head n : ℕ) → head < capacity → n ≤ capacity → place capacity head n < capacity
unfolding place
place-lt capacity head n h k = ground arith

pub place-zero : (capacity head : ℕ) → head < capacity → place capacity head 0 ≡ head
unfolding place
place-zero capacity head h = ground arith

pub place-next :
    (capacity head n : ℕ)
    → head < capacity
    → n < capacity
    → place capacity (next capacity head) n ≡ place capacity head (n + 1)
unfolding place next
place-next capacity head n h k = ground arith

pub next-place :
    (capacity head n : ℕ)
    → head < capacity
    → n < capacity
    → next capacity (place capacity head n) ≡ place capacity head (n + 1)
unfolding place next
next-place capacity head n h k = ground arith

place-ne :
    (capacity head n : ℕ) → head < capacity → suc n < capacity → place capacity head (suc n) ≢ head
unfolding place
place-ne capacity head n h k = ground arith

-- A write behind the tasks that are read does not touch them.
read_tasks-set :
    (capacity n m head : ℕ) (queue : List Task) (task : Task)
    → head < capacity
    → n ≤ m
    → m < capacity
    → read_tasks capacity n (set queue (place capacity head m) task) head
      ≡ read_tasks capacity n queue head
unfolding read_tasks
read_tasks-set capacity zero m head queue task h k f = refl
read_tasks-set capacity (suc n) zero head queue task h k f = absurd (omega arith)
read_tasks-set capacity (suc n) (suc m) head queue task h k f =
    let shifted : place capacity (next capacity head) m ≡ place capacity head (suc m) =
      place-next capacity head m h (omega arith) ∙ ap (place capacity head) (omega arith) in
    ap₂ ◌∷◌
      (get_or-set_ne queue (place capacity head (suc m)) head task zeroed
        (place-ne capacity head m h f))
      (ap (λ i. read_tasks capacity n (set queue i task) (next capacity head)) (sym shifted)
        ∙ read_tasks-set capacity n m (next capacity head) queue task (next-lt capacity head h)
            (omega arith) (omega arith))

-- One more task is read after it was written at the end.
read_tasks-snoc :
    (capacity n head : ℕ) (queue : List Task)
    → head < capacity
    → n < capacity
    → read_tasks capacity (suc n) queue head
      ≡ read_tasks capacity n queue head ++ get_or queue (place capacity head n) zeroed ∷ []
unfolding read_tasks
read_tasks-snoc capacity zero head queue h k =
    ap (λ i. get_or queue i zeroed ∷ []) (sym (place-zero capacity head h))
read_tasks-snoc capacity (suc n) head queue h k = ap (◌∷◌ (get_or queue head zeroed)) (
    read_tasks-snoc capacity n (next capacity head) queue (next-lt capacity head h) (omega arith)
    ∙ ap (λ i. read_tasks capacity n queue (next capacity head) ++ get_or queue i zeroed ∷ [])
        (place-next capacity head n h (omega arith) ∙ ap (place capacity head) (omega arith)))

store_one :
    (capacity n head : ℕ) (queue : List Task) (task : Task)
    → length queue ≡ capacity
    → head < capacity
    → n < capacity
    → read_tasks capacity (n + 1) (set queue (place capacity head n) task) head
      ≡ read_tasks capacity n queue head ++ task ∷ []
store_one capacity n head queue task len h k =
    ap (λ m. read_tasks capacity m (set queue (place capacity head n) task) head) (omega arith)
    ∙ read_tasks-snoc capacity n head (set queue (place capacity head n) task) h k
    ∙ ap₂ (λ l t. l ++ t ∷ []) (read_tasks-set capacity n n head queue task h (omega arith) k)
        (get_or-set_self queue (place capacity head n) task zeroed
          (omega (arith, place-lt capacity head n h (omega arith))))

pub length-store_tasks :
    (capacity : ℕ) (tasks queue : List Task) (tail : ℕ)
    → length (store_tasks capacity tasks queue tail).0 ≡ length queue
unfolding store_tasks
length-store_tasks capacity [] queue tail = refl
length-store_tasks capacity (task ∷ tasks) queue tail =
    length-store_tasks capacity tasks (set queue tail task) (next capacity tail)
    ∙ length-set queue tail task

-- The copying loop appends the batch to the tasks in the ring, in its order, and leaves the tail
-- behind its last task.
pub store_tasks-append :
    (capacity n head : ℕ) (tasks queue : List Task) (tail : ℕ)
    → length queue ≡ capacity
    → head < capacity
    → n + length tasks ≤ capacity
    → tail ≡ place capacity head n
    → (read_tasks capacity (n + length tasks) (store_tasks capacity tasks queue tail).0 head
        ≡ read_tasks capacity n queue head ++ tasks)
      × ((store_tasks capacity tasks queue tail).1 ≡ place capacity head (n + length tasks))
unfolding store_tasks
store_tasks-append capacity n head [] queue tail len h k e =
    let same : n + 0 ≡ n = omega arith in
    (
      ap (λ m. read_tasks capacity m queue head) same
          ∙ sym (append-nil (read_tasks capacity n queue head)),
      e ∙ ap (place capacity head) (sym same),
    )
store_tasks-append capacity n head (task ∷ tasks) queue tail len h k e =
    let same : n + suc (length tasks) ≡ n + 1 + length tasks = omega arith in
    let rest =
      store_tasks-append capacity (n + 1) head tasks (set queue tail task) (next capacity tail)
        (length-set queue tail task ∙ len) h (omega arith)
        (ap (next capacity) e ∙ next-place capacity head n h (omega arith)) in
    (
      ap
            (λ m.
              read_tasks capacity m
                (store_tasks capacity tasks (set queue tail task) (next capacity tail)).0 head)
            same
          ∙ rest.0
          ∙ ap (λ i. read_tasks capacity (n + 1) (set queue i task) head ++ tasks) e
          ∙ ap (λ l. l ++ tasks) (store_one capacity n head queue task len h (omega arith))
          ∙ append_assoc (read_tasks capacity n queue head) (task ∷ []) tasks,
      rest.1 ∙ ap (place capacity head) (sym same),
    )

pub length-read_tasks :
    (capacity n : ℕ) (queue : List Task) (head : ℕ) → length (read_tasks capacity n queue head) ≡ n
unfolding read_tasks
length-read_tasks capacity zero queue head = refl
length-read_tasks capacity (suc n) queue head =
    ap suc (length-read_tasks capacity n queue (next capacity head))
