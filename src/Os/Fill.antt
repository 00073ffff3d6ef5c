-- ===== src/Os/Fill.antt =====
-- `os_random_bytes` fills its buffer.
use stdc.Os.Random.{
  ReadAnswer, got, interrupted, failed, Filled, fill_loop, OpenAnswer, descriptor, retry, refused,
  open_loop, random_bytes,
}
use stdc.Prelude.Blocks.{copy_into, copy_into_twice}
use stdc.Prelude.{
  ℕ, zero, suc, ◌+◌, ◌-◌, ◌^◌, ◌≤◌, ◌<◌, ◌≡◌, refl, sym, ap, ◌∙◌, inl, inr, List, [], ◌∷◌, ◌++◌,
  arith, length, take, drop, min, length-take, take-add, take-length, length-drop, ◌==◌, ltb,
  if◌then◌else◌, some, Bool-cases,
}

-- Of `more` bytes from `p` on, the first so many of the source are in the buffer, and 0 means that
-- all are. No descriptor stays open behind a call that has returned; `d` were open before.
pub record Fills (source : List ℕ) (more p d : ℕ) (buffer : List ℕ) (f : Filled) : Type 0 where
  pub count : ℕ
  pub stored : f.buffer ≡ copy_into buffer p (take count source)
  pub there : count ≤ length source
  pub within : count ≤ more
  pub complete : f.status ≡ some 0 → count ≡ more
  pub closed : (s : ℕ) → f.status ≡ some s → f.descriptors ≡ d

stuck :
    (source : List ℕ) (more p d : ℕ) (buffer : List ℕ) (f : Filled)
    → f.buffer ≡ buffer
    → ¬ (f.status ≡ some 0)
    → ((s : ℕ) → f.status ≡ some s → f.descriptors ≡ d)
    → Fills source more p d buffer f
unfolding copy_into
stuck source more p d buffer f b h c = record {
  count = 0;
  stored = b;
  there = omega arith;
  within = omega arith;
  complete = λ t. absurd (h t);
  closed = c;
}

more_bytes :
    (source : List ℕ) (more p d n : ℕ) (buffer taken : List ℕ) (f : Filled)
    → taken ≡ take n source
    → n ≤ length source
    → n ≤ more
    → Fills (drop n source) (more - n) (p + n) d (copy_into buffer p taken) f
    → Fills source more p d buffer f
more_bytes source more p d n buffer taken f e l h s =
    let len : length taken ≡ n = omega (arith, ap length e, length-take n source) in
    record {
      count = n + s.count;
      stored =
          s.stored
          ∙ ap (λ t. copy_into (copy_into buffer p taken) (p + t) (take s.count (drop n source)))
              (sym len)
          ∙ copy_into_twice taken (take s.count (drop n source)) buffer p
          ∙ ap (λ t. copy_into buffer p (t ++ take s.count (drop n source))) e
          ∙ ap (copy_into buffer p) (sym (take-add n s.count source));
      there = omega (arith, s.there, length-drop n source);
      within = omega (arith, s.within);
      complete = λ t. omega (arith, s.complete t);
      closed = s.closed;
    }

fill_loop-Fills :
    (answers : List ReadAnswer) (source : List ℕ) (more p d : ℕ) (buffer : List ℕ)
    → Fills source more p d buffer (fill_loop answers source more p buffer (d + 1))
unfolding fill_loop
fill_loop-Fills answers source zero p d buffer = record {
  count = 0;
  stored = unfold copy_into in refl;
  there = omega arith;
  within = omega arith;
  complete = λ t. refl;
  closed = λ s e. omega arith;
}
fill_loop-Fills [] source (suc more) p d buffer =
    stuck source (suc more) p d buffer _ refl (λ t. cc t) (λ s e. absurd (cc e))
fill_loop-Fills (interrupted ∷ answers) source (suc more) p d buffer =
    fill_loop-Fills answers source (suc more) p d buffer
fill_loop-Fills (failed ∷ answers) source (suc more) p d buffer =
    stuck source (suc more) p d buffer _ refl (λ t. ground arith) (λ s e. omega arith)
fill_loop-Fills (got k ∷ answers) source (suc more) p d buffer =
    let chunk = if ltb (2 ^ 63 - 1) (suc more) then 2 ^ 63 - 1 else suc more in
    let small : chunk ≤ suc more = ground arith in
    let n = min k chunk in
    let taken = take n source in
    let len = length-take n source in
    elim (Bool-cases (length taken == 0)) [
      | inl empty ↦
          rw empty
            (stuck source (suc more) p d buffer _ refl (λ t. ground arith) (λ s e. omega arith))
      | inr more_left ↦ rw more_left (
          more_bytes source (suc more) p d (length taken) buffer taken _
            (sym (take-length n source)) (omega arith) (omega (arith, small))
            (fill_loop-Fills answers (drop (length taken) source) (suc more - length taken)
              (p + length taken) d (copy_into buffer p taken)))
    ]

open_loop-Fills :
    (opens : List OpenAnswer) (answers : List ReadAnswer) (source : List ℕ) (n d : ℕ)
    (buffer : List ℕ)
    → 0 < n
    → Fills source n 0 d buffer (open_loop opens answers source n buffer d)
unfolding open_loop
open_loop-Fills [] answers source n d buffer h =
    stuck source n 0 d buffer _ refl (λ t. cc t) (λ s e. refl)
open_loop-Fills (descriptor ∷ opens) answers source n d buffer h =
    fill_loop-Fills answers source n 0 d buffer
open_loop-Fills (retry ∷ opens) answers source n d buffer h =
    open_loop-Fills opens answers source n d buffer h
open_loop-Fills (refused ∷ opens) answers source n d buffer h =
    stuck source n 0 d buffer _ refl (λ t. ground arith) (λ s e. refl)

-- However the system cuts and interrupts its calls, `os_random_bytes` writes to the start of the
-- buffer the first bytes that the device gives, in order and without a gap, at most as many as were
-- asked for, and changes nothing else of the buffer; if it returns 0, they are as many as were asked
-- for; and when it has returned, no descriptor is left open.
pub random_bytes-Fills :
    (opens : List OpenAnswer) (answers : List ReadAnswer) (source : List ℕ) (n d : ℕ)
    (buffer : List ℕ)
    → Fills source n 0 d buffer (random_bytes opens answers source n buffer d)
unfolding random_bytes
random_bytes-Fills opens answers source n d buffer = elim (Bool-cases (n == 0)) [
  | inr more_left ↦ rw more_left (open_loop-Fills opens answers source n d buffer (ground arith))
  | inl nothing ↦
      let e : n ≡ 0 = ground arith in
      rw e record {
        count = 0;
        stored = unfold copy_into in refl;
        there = omega arith;
        within = omega arith;
        complete = λ t. refl;
        closed = λ s e. refl;
      }
]
