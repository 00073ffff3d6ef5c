-- ===== src/AsyncLog/Tasks.antt =====
-- The list of free tasks, and how often a task stands in a list.
use stdc.AsyncLog.{link_loop}
use stdc.Prelude.{
  ℕ, zero, suc, ◌+◌, ◌≤◌, ◌<◌, ◌≡◌, ◌≢◌, refl, sym, ap, ◌∙◌, subst, inl, inr, List, [], ◌∷◌, ◌++◌,
  arith, Option, none, some, ◌==◌, ltb, if◌then◌else◌, Bool-cases, length, get_or, set, length-set,
  get_or-set_self, get_or-set_ne,
}

unfoldable pub occ : ℕ → List ℕ → ℕ
occ i [] = 0
occ i (x ∷ xs) = (if i == x then 1 else 0) + occ i xs

pub occ-append : (i : ℕ) (xs ys : List ℕ) → occ i (xs ++ ys) ≡ occ i xs + occ i ys
unfolding occ
occ-append i [] ys = omega arith
occ-append i (x ∷ xs) ys = omega (arith, occ-append i xs ys)

pub occ-middle :
    (i x : ℕ) (front back : List ℕ)
    → occ i (front ++ x ∷ back) ≡ (if i == x then 1 else 0) + occ i (front ++ back)
unfolding occ
occ-middle i x front back = omega (arith, occ-append i front (x ∷ back), occ-append i front back)

-- The tasks of a list, linked through `next`.
pub data Free (next : List (Option ℕ)) : Option ℕ → List ℕ → Type 0 where
  last : Free next none []
  link : (i : ℕ) {xs : List ℕ} → Free next (get_or next i none) xs → Free next (some i) (i ∷ xs)

-- A write to the link of another task.
pub Free-set :
    (next : List (Option ℕ)) (i : ℕ) (v : Option ℕ) {h : Option ℕ} {xs : List ℕ}
    → occ i xs ≡ 0
    → Free next h xs
    → Free (set next i v) h xs
unfolding occ
Free-set next i v n last = last
Free-set next i v n (link j {xs} f) =
    let ne : i ≢ j = ground arith in
    link j (
      subst (λ t. Free (set next i v) t xs) (sym (get_or-set_ne next i j v none ne))
        (Free-set next i v (ground arith) f))

-- A task that is put in front of the list.
pub Free-push :
    (next : List (Option ℕ)) (i : ℕ) (h : Option ℕ) (xs : List ℕ)
    → i < length next
    → occ i xs ≡ 0
    → Free next h xs
    → Free (set next i h) (some i) (i ∷ xs)
Free-push next i h xs l n f = link i (
    subst (λ t. Free (set next i h) t xs) (sym (get_or-set_self next i h none l))
      (Free-set next i h n f))

-- `n` numbers from `i` on.
unfoldable pub from : ℕ → ℕ → List ℕ
from zero i = []
from (suc n) i = i ∷ from n (i + 1)

pub occ-from :
    (n i j : ℕ) → occ j (from n i) ≡ (if ltb j i then 0 else if ltb j (i + n) then 1 else 0)
unfolding occ from
occ-from zero i j = ground arith
occ-from (suc n) i j = ground (arith, occ-from n (i + 1) j)

pub length-link_loop :
    (n i : ℕ) (next : List (Option ℕ)) → length (link_loop n i next) ≡ length next
unfolding link_loop
length-link_loop zero i next = refl
length-link_loop (suc n) i next =
    length-link_loop n (i + 1) (set next i (some (i + 1))) ∙ length-set next i (some (i + 1))

-- Links below the loop's index stay.
link_loop-below :
    (n i j : ℕ) (next : List (Option ℕ))
    → j < i
    → get_or (link_loop n i next) j none ≡ get_or next j none
unfolding link_loop
link_loop-below zero i j next h = refl
link_loop-below (suc n) i j next h =
    link_loop-below n (i + 1) j (set next i (some (i + 1))) (omega arith)
    ∙ get_or-set_ne next i j (some (i + 1)) none (λ e. absurd (omega arith))

-- The loop links each of its tasks to the following.
pub link_loop-links :
    (n i j : ℕ) (next : List (Option ℕ))
    → i + n ≤ length next
    → i ≤ j
    → j < i + n
    → get_or (link_loop n i next) j none ≡ some (j + 1)
unfolding link_loop
link_loop-links zero i j next h p q = absurd (omega arith)
link_loop-links (suc n) i j next h p q = elim (Bool-cases (i == j)) [
  | inl same ↦
      let e : i ≡ j = ground arith in
      link_loop-below n (i + 1) j (set next i (some (i + 1))) (omega arith)
      ∙ ap (λ t. get_or (set next t (some (t + 1))) j none) e
      ∙ get_or-set_self next j (some (j + 1)) none (omega arith)
  | inr other ↦
      link_loop-links n (i + 1) j (set next i (some (i + 1)))
        (omega (arith, length-set next i (some (i + 1)))) (ground arith) (omega arith)
]

-- A chain of links is a list.
pub Free-from :
    (next : List (Option ℕ)) (n i : ℕ)
    → ((j : ℕ) → i ≤ j → j < i + n → get_or next j none ≡ some (j + 1))
    → get_or next (i + n) none ≡ none
    → Free next (some i) (from (suc n) i)
unfolding from
Free-from next zero i h e =
    let z : i + 0 ≡ i = omega arith in
    link i (subst (λ t. Free next t []) (sym e ∙ ap (λ t. get_or next t none) z) last)
Free-from next (suc n) i h e =
    let z : i + suc n ≡ i + 1 + n = omega arith in
    link i (
      subst (λ t. Free next t (from (suc n) (i + 1))) (sym (h i (omega arith) (omega arith)))
        (Free-from next n (i + 1) (λ j p q. h j (omega arith) (omega arith))
          (ap (λ t. get_or next t none) (sym z) ∙ e)))
