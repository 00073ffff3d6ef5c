-- ===== src/AsyncLog/Reach.antt =====
-- What holds of the logger in each state that it reaches.
use stdc.AsyncLog.{LogLock, log_init, link_loop, World, print_begin, Steps, stay, step, started}
use stdc.AsyncLog.Tasks.{
  occ, Free, last, link, from, occ-from, length-link_loop, link_loop-links, Free-from,
}
use stdc.Prelude.{
  ℕ, suc, ◌+◌, ◌-◌, ◌<◌, ◌≡◌, refl, sym, ap, ◌∙◌, subst, inl, inr, true, false, List, [], ◌∷◌,
  arith, Option, none, some, Option-cases, length, get_or, set, length-set, get_or-set_self,
  get_or-set_ne,
}
use stdc.AsyncLog.Messages.{tally, messages, delivered, length-from, Free-head}
use stdc.AsyncLog.Sound.{Sound, Step-Sound, begin_task}

started_lem :
    (size : ℕ) (log : LogLock)
    → log.running ≡ false
    → started size log ≡ record {
      log = record log {
        running = true;
        next = set (link_loop (size - 1) 0 log.next) (size - 1) none;
        linklist = some 0;
      };
      claimed = [];
      queue = [];
      accepted = [];
      finished = [];
    }
unfolding log_init
started_lem size log off = ground (arith, off)

started-Sound :
    (size : ℕ) (log : LogLock)
    → log.running ≡ false
    → length log.next ≡ size
    → length log.array ≡ size
    → 0 < size
    → Sound size (started size log)
unfolding occ tally messages delivered
started-Sound size log off links tasks positive =
    let looped = length-link_loop (size - 1) 0 log.next in
    let e : suc (size - 1) ≡ size = omega arith in
    let next = set (link_loop (size - 1) 0 log.next) (size - 1) none in
    let z : 0 + (size - 1) ≡ size - 1 = omega arith in
    subst (Sound size) (sym (started_lem size log off)) record {
      free = from (suc (size - 1)) 0;
      linked =
          Free-from next (size - 1) 0
            (λ j p q.
              get_or-set_ne (link_loop (size - 1) 0 log.next) (size - 1) j none none
                (λ t. absurd (omega arith))
              ∙ link_loop-links (size - 1) 0 j log.next (omega arith) p q)
            (ap (λ t. get_or next t none) z
              ∙ get_or-set_self (link_loop (size - 1) 0 log.next) (size - 1) none none
                  (omega (arith, looped)));
      links = length-set (link_loop (size - 1) 0 log.next) (size - 1) none ∙ looped ∙ links;
      tasks = tasks;
      parts = λ i. ground (arith, occ-from (suc (size - 1)) 0 i);
      total = omega (arith, length-from (suc (size - 1)) 0);
      conserved = λ p. refl;
    }

-- From `async_log_init` on, with its lock configured, whatever calls of `__async_log_print__` and
-- workers do, in any order, and however often the thread pool refuses a task: each task of the
-- array is free, with one call, or once with the thread pool; and of every kind of message as many
-- were accepted as were handed on and wait in the thread pool, so that no message is lost, changed by
-- another one or handed on twice.
pub reach-Sound :
    (size : ℕ) (log : LogLock) {w : World}
    → log.running ≡ false
    → length log.next ≡ size
    → length log.array ≡ size
    → 0 < size
    → Steps (started size log) w
    → Sound size w
reach-Sound size log off links tasks positive steps =
    Steps-Sound steps (started-Sound size log off links tasks positive)
  where
    Steps-Sound : {v w : World} → Steps v w → Sound size v → Sound size w
    Steps-Sound (stay w) s = s
    Steps-Sound (step before one) s = Step-Sound one (Steps-Sound before s)

-- A logger in a state that it can reach, with fewer messages under way than it has tasks, does not
-- discard a message: `__async_log_print__` gets a task, and one that no other call and no worker
-- uses.
pub print_begin-claims :
    {size : ℕ} (w : World)
    → Sound size w
    → length w.claimed + length w.queue < size
    → (t : ℕ) × (((print_begin w).claimed ≡ t ∷ w.claimed)
        × ((occ t w.claimed ≡ 0) × (occ t w.queue ≡ 0)))
unfolding occ
print_begin-claims {size} w s few = elim (Option-cases w.log.linklist) [
  | inl empty ↦ absurd (omega (arith, s.total, ap length (Free-empty empty s.linked), few))
  | inr (t, full) ↦
      let (xs, (e, f)) = Free-head full s.linked in
      let part = s.parts t in
      let apart : (occ t w.claimed ≡ 0) × (occ t w.queue ≡ 0) =
        ground (arith, part, ap (occ t) e) in
      (t, (ap (λ v. v.claimed) (begin_task w t full), apart))
]
  where
    Free-empty :
        {next : List (Option ℕ)} {h : Option ℕ} {free : List ℕ}
        → h ≡ none
        → Free next h free
        → free ≡ []
    Free-empty e last = refl
    Free-empty e (link i f) = absurd (cc e)
