-- ===== src/AsyncLog.antt =====
-- async_log.c and async_log.h: the logger's state and its functions. A stretch of code between a
-- lock and its release is one function, and so is one that uses only what its thread owns.
pub mod Tasks
pub mod Messages
pub mod Sound
pub mod Reach
pub mod Format
use stdc.Prelude.{
  ℕ, zero, suc, ◌+◌, ◌-◌, ◌≡◌, Bool, true, false, not, List, [], ◌∷◌, ◌++◌, Option, none, some,
  ◌==◌, if◌then◌else◌, length, get_or, set, take, replicate,
}

-- What is logged: the fields of `_AsyncLogTask` but the link.
pub record Message : Type 0 where
  pub file : List ℕ
  pub line : ℕ
  pub level : ℕ
  pub time : ℕ
  pub message : List ℕ

abbrev pub no_message : Message
no_message = record { file = []; line = 0; level = 0; time = 0; message = [] }

-- Where an event goes: the standard output of errors, or a callback with its context.
pub data Sink : Type 0 where
  stdout : Sink
  callback : ℕ → Sink

-- `_LogLock`. A task is its index in the array; `next` has the links of the tasks, and `callbacks` a
-- number for each function with its context.
pub record LogLock : Type 0 where
  pub mode : ℕ
  pub callbacks : List (Option ℕ)
  pub running : Bool
  pub array : List Message
  pub next : List (Option ℕ)
  pub linklist : Option ℕ

-- The loop of `async_log_init` with `n` rounds to go.
unfoldable pub link_loop : ℕ → ℕ → List (Option ℕ) → List (Option ℕ)
link_loop zero i next = next
link_loop (suc n) i next = link_loop n (i + 1) (set next i (some (i + 1)))

-- `async_log_init`, with `size` tasks; `created` is whether `threadpool_create` returns a pool.
unfoldable pub log_init : ℕ → Bool → LogLock → LogLock
log_init size created log = if log.running then log else record log {
  running = created;
  next = set (link_loop (size - 1) 0 log.next) (size - 1) none;
  linklist = some 0;
}

-- `async_log_exit`, but for the thread pool, which `threadpool_destroy` ends.
unfoldable pub log_exit : LogLock → LogLock
log_exit log = record log { running = false }

unfoldable pub log_setting : ℕ → LogLock → LogLock
log_setting mode log = record log { mode = mode }

-- The loop of `async_log_add_callback`: the first free register, if there is one.
unfoldable pub register : ℕ → List (Option ℕ) → List (Option ℕ)
register func [] = []
register func (none ∷ slots) = some func ∷ slots
register func (some other ∷ slots) = some other ∷ register func slots

unfoldable pub add_callback : ℕ → LogLock → LogLock
add_callback func log = record log { callbacks = register func log.callbacks }

-- `__async_log_threadpool_allocate__`.
unfoldable pub allocate : LogLock → Option ℕ × LogLock
allocate log = elim log.linklist [
  | none ↦ (none, log)
  | some task ↦ (some task, record log { linklist = get_or log.next task none })
]

-- `__async_log_threadpool_deallocate__`.
unfoldable pub deallocate : ℕ → LogLock → LogLock
deallocate task log = record log { next = set log.next task log.linklist; linklist = some task }

-- The callbacks before the first free place.
unfoldable pub registered : List (Option ℕ) → List Sink
registered [] = []
registered (none ∷ slots) = []
registered (some func ∷ slots) = callback func ∷ registered slots

-- Where `__async_log_worker__`, and `__async_log_print__` without a pool, hand an event to, in order.
unfoldable pub sinks : LogLock → List Sink
sinks log = let rest = registered log.callbacks in if log.mode == 0 then stdout ∷ rest else rest

-- `vsnprintf` into the message of a task, whose 512 bytes end with a zero.
abbrev pub fill : Message → Message
fill m = record m { message = take 511 m.message }

-- The logger with its surroundings: the tasks that a call of `__async_log_print__` has allocated, those
-- that the thread pool has accepted and not run, the messages that it has accepted, and those that
-- were handed on, each with where it went.
pub record World : Type 0 where
  pub log : LogLock
  pub claimed : List ℕ
  pub queue : List ℕ
  pub accepted : List Message
  pub finished : List (Message × List Sink)

-- `__async_log_print__` up to the release of the lock. Where there is no task, the call ends.
unfoldable pub print_begin : World → World
print_begin w =
    let (task, log) = allocate w.log in
    elim task [ none ↦ w | some t ↦ record w { log = log; claimed = t ∷ w.claimed } ]

-- The rest of `__async_log_print__`; `added` is whether `threadpool_add` returns 0.
unfoldable pub print_end : ℕ → Message → Bool → World → World
print_end task m added w =
    let log = record w.log { array = set w.log.array task (fill m) } in
    if added
    then record w { log = log; queue = task ∷ w.queue; accepted = fill m ∷ w.accepted }
    else record w { log = deallocate task log }

-- `__async_log_worker__`.
unfoldable pub worker : ℕ → World → World
worker task w = record w {
  log = deallocate task w.log;
  finished = (get_or w.log.array task no_message, sinks w.log) ∷ w.finished;
}

-- What may happen next. The calls and the workers take turns in any order; `front` and `back` are the
-- other calls that are under way, and the other tasks of the thread pool.
pub data Step : World → World → Type 0 where
  begins : (w : World) → Step w (print_begin w)
  ends :
      (w : World) (front back : List ℕ) (task : ℕ) (m : Message) (added : Bool)
      → w.claimed ≡ front ++ task ∷ back
      → Step w (print_end task m added (record w { claimed = front ++ back }))
  works :
      (w : World) (front back : List ℕ) (task : ℕ)
      → w.queue ≡ front ++ task ∷ back
      → Step w (worker task (record w { queue = front ++ back }))
  sets : (w : World) (mode : ℕ) → Step w (record w { log = log_setting mode w.log })
  adds : (w : World) (func : ℕ) → Step w (record w { log = add_callback func w.log })

pub data Steps : World → World → Type 0 where
  stay : (w : World) → Steps w w
  step : {u v w : World} → Steps u v → Step v w → Steps u w

-- Before the first message.
abbrev pub started : ℕ → LogLock → World
started size log = record {
  log = log_init size true log;
  claimed = [];
  queue = [];
  accepted = [];
  finished = [];
}
