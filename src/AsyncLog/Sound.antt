-- ===== src/AsyncLog/Sound.antt =====
-- What holds of the logger between two steps.
use stdc.AsyncLog.{
  Message, no_message, log_setting, add_callback, allocate, deallocate, fill, World, print_begin,
  print_end, worker, Step, begins, ends, works, sets, adds,
}
use stdc.AsyncLog.Tasks.{occ, occ-middle, Free, Free-push}
use stdc.Prelude.{
  ℕ, ◌+◌, ◌<◌, ◌≡◌, sym, ap, ◌∙◌, subst, inl, inr, Bool, List, ◌∷◌, ◌++◌, arith, none, some, ltb,
  if◌then◌else◌, Bool-cases, Option-cases, length, get_or, length-set, get_or-set_self,
}
use stdc.AsyncLog.Messages.{
  tally, messages, delivered, tally-middle, messages-set, length-middle, Free-head,
}

-- Every task is free, allocated or with the thread pool, and only one of these; the free ones are
-- linked. The messages that the thread pool has accepted are those that were handed on and those of
-- the tasks that it has.
pub record Sound (size : ℕ) (w : World) : Type 0 where
  pub free : List ℕ
  pub linked : Free w.log.next w.log.linklist free
  pub links : length w.log.next ≡ size
  pub tasks : length w.log.array ≡ size
  pub parts : (i : ℕ) → occ i free + occ i w.claimed + occ i w.queue ≡ (if ltb i size then 1 else 0)
  pub total : length free + length w.claimed + length w.queue ≡ size
  pub conserved :
      (p : Message → Bool)
      → tally p w.accepted ≡ tally p (delivered w.finished) + tally p (messages w.log.array w.queue)

begin_empty : (w : World) → w.log.linklist ≡ none → print_begin w ≡ w
unfolding print_begin allocate
begin_empty w e = ground (arith, e)

pub begin_task :
    (w : World) (t : ℕ)
    → w.log.linklist ≡ some t
    → print_begin w ≡ record w {
      log = record w.log { linklist = get_or w.log.next t none };
      claimed = t ∷ w.claimed;
    }
unfolding print_begin allocate
begin_task w t e = ground (arith, e)

begin-Sound : {size : ℕ} (w : World) → Sound size w → Sound size (print_begin w)
unfolding occ
begin-Sound {size} w s = elim (Option-cases w.log.linklist) [
  | inl empty ↦ subst (Sound size) (sym (begin_empty w empty)) s
  | inr (t, full) ↦
      let (xs, (e, f)) = Free-head full s.linked in
      subst (Sound size) (sym (begin_task w t full)) record {
        free = xs;
        linked = f;
        links = s.links;
        tasks = s.tasks;
        parts = λ i. omega (arith, s.parts i, ap (occ i) e);
        total = omega (arith, s.total, ap length e);
        conserved = s.conserved;
      }
]

-- A task that is free nowhere goes back to the list.
released :
    {size : ℕ} {w : World} (s : Sound size w) (t : ℕ)
    → 0 < occ t w.claimed + occ t w.queue
    → (t < size) × ((occ t s.free ≡ 0) × (occ t w.claimed + occ t w.queue ≡ 1))
released {size} {w} s t h = elim (Bool-cases (ltb t size)) [
  | inl inside ↦ let part = s.parts t in ground (arith, part, inside)
  | inr outside ↦ let part = s.parts t in ground (arith, part, outside)
]

end-Sound :
    {size : ℕ} (w : World) (front back : List ℕ) (t : ℕ) (m : Message) (added : Bool)
    → w.claimed ≡ front ++ t ∷ back
    → Sound size w
    → Sound size (print_end t m added (record w { claimed = front ++ back }))
unfolding print_end deallocate occ messages tally
end-Sound {size} w front back t m added e s =
    let here = λ (i : ℕ). ap (occ i) e ∙ occ-middle i t front back in
    let counted = ap length e ∙ length-middle t front back in
    let r = released s t (ground (arith, here t)) in
    let outside : occ t w.queue ≡ 0 = ground (arith, here t, r.1.1) in
    let same = messages-set w.log.array t (fill m) w.queue outside in
    elim (Bool-cases added) [
      | inl yes_added ↦ rw yes_added record {
        free = s.free;
        linked = s.linked;
        links = s.links;
        tasks = length-set w.log.array t (fill m) ∙ s.tasks;
        parts = λ i. omega (arith, s.parts i, here i);
        total = omega (arith, s.total, counted);
        conserved = λ p. omega (
          arith,
          s.conserved p,
          ap (tally p) same,
          ap {B = ℕ} (λ x. if p x then 1 else 0)
              (get_or-set_self w.log.array t (fill m) no_message (omega (arith, s.tasks, r.0))),
        );
      }
      | inr refused ↦ rw refused record {
        free = t ∷ s.free;
        linked =
            Free-push w.log.next t w.log.linklist s.free (omega (arith, s.links, r.0)) r.1.0
              s.linked;
        links = length-set w.log.next t w.log.linklist ∙ s.links;
        tasks = length-set w.log.array t (fill m) ∙ s.tasks;
        parts = λ i. omega (arith, s.parts i, here i);
        total = omega (arith, s.total, counted);
        conserved = λ p. omega (arith, s.conserved p, ap (tally p) same);
      }
    ]

work-Sound :
    {size : ℕ} (w : World) (front back : List ℕ) (t : ℕ)
    → w.queue ≡ front ++ t ∷ back
    → Sound size w
    → Sound size (worker t (record w { queue = front ++ back }))
unfolding worker deallocate occ delivered tally
work-Sound {size} w front back t e s =
    let here = λ (i : ℕ). ap (occ i) e ∙ occ-middle i t front back in
    let counted = ap length e ∙ length-middle t front back in
    let r = released s t (ground (arith, here t)) in
    record {
      free = t ∷ s.free;
      linked =
          Free-push w.log.next t w.log.linklist s.free (omega (arith, s.links, r.0)) r.1.0 s.linked;
      links = length-set w.log.next t w.log.linklist ∙ s.links;
      tasks = s.tasks;
      parts = λ i. omega (arith, s.parts i, here i);
      total = omega (arith, s.total, counted);
      conserved = λ p. omega (
        arith,
        s.conserved p,
        ap (λ q. tally p (messages w.log.array q)) e,
        tally-middle p w.log.array t front back,
      );
    }

pub Step-Sound : {size : ℕ} {v w : World} → Step v w → Sound size v → Sound size w
unfolding log_setting add_callback
Step-Sound (begins w) s = begin-Sound w s
Step-Sound (ends w front back t m added e) s = end-Sound w front back t m added e s
Step-Sound (works w front back t e) s = work-Sound w front back t e s
Step-Sound (sets w mode) s = record {
  free = s.free;
  linked = s.linked;
  links = s.links;
  tasks = s.tasks;
  parts = s.parts;
  total = s.total;
  conserved = s.conserved;
}
Step-Sound (adds w func) s = record {
  free = s.free;
  linked = s.linked;
  links = s.links;
  tasks = s.tasks;
  parts = s.parts;
  total = s.total;
  conserved = s.conserved;
}
