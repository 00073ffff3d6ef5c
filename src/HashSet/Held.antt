-- ===== src/HashSet/Held.antt =====
-- How often a value stands in the table of set.c, and where the search for it ends.
use stdc.HashSet.Counts.{total, IsTable, find_slot-IsFound}
use stdc.HashSet.Element.{Element, get_hash, element_equal}
use stdc.HashSet.Equal.{equal_right, hash-equal}
use stdc.HashSet.Placed.{Filled, Comes, Placed, Hits, find_loop-Hits, find_loop-Comes}
use stdc.HashSet.Probe.{Slot, empty, removed, taken, wrap}
use stdc.HashSet.Search.{walk, Slot-cases}
use stdc.HashSet.Table.{Set, find_slot}
use stdc.Prelude.{
  ℕ, zero, suc, ◌<◌, ◌≡◌, ◌≢◌, refl, ap, ◌∙◌, subst, ◌⊎◌, inl, inr, true, none, some, List, [], ◌∷◌,
  arith, Bool-cases, if◌then◌else◌, ◌==◌, get_or, length,
}

abbrev pub matches : Element → Slot → ℕ
matches w empty = 0
matches w removed = 0
matches w (taken hash x) = if element_equal x w then 1 else 0

-- The number of slots that hold a value equal to the given one.
unfoldable pub copies : Element → List Slot → ℕ
copies w buckets = total (matches w) buckets

matches-equal :
    (v w : Element) (slot : Slot) → element_equal v w ≡ true → matches v slot ≡ matches w slot
matches-equal v w empty e = refl
matches-equal v w removed e = refl
matches-equal v w (taken hash x) e = ap (λ b. if b then 1 else 0) (equal_right x v w e)

pub copies-equal :
    (v w : Element) (buckets : List Slot)
    → element_equal v w ≡ true
    → copies v buckets ≡ copies w buckets
unfolding copies total
copies-equal v w [] e = refl
copies-equal v w (slot ∷ buckets) e =
    omega (arith, matches-equal v w slot e, copies-equal v w buckets e)

-- A slot that holds a value equal to the given one.
unfoldable pub Holds : List Slot → ℕ → Element → Type 0
Holds buckets i value =
    (hash : ℕ) × ((x : Element) × ((get_or buckets i empty ≡ taken hash x)
        × (element_equal x value ≡ true)))

Holds-suc :
    (slot : Slot) (buckets : List Slot) (w : Element)
    → (i : ℕ) × (i < length buckets) × Holds buckets i w
    → (i : ℕ) × (i < suc (length buckets)) × Holds (slot ∷ buckets) i w
unfolding Holds
Holds-suc slot buckets w (i, l, h) = (suc i, omega arith, h)

copies-Holds :
    (w : Element) (buckets : List Slot)
    → 0 < copies w buckets
    → (i : ℕ) × (i < length buckets) × Holds buckets i w
unfolding copies total
copies-Holds w [] h = absurd (omega arith)
copies-Holds w (empty ∷ buckets) h =
    Holds-suc empty buckets w (copies-Holds w buckets (omega arith))
copies-Holds w (removed ∷ buckets) h =
    Holds-suc removed buckets w (copies-Holds w buckets (omega arith))
copies-Holds w (taken hash x ∷ buckets) h = elim (Bool-cases (element_equal x w)) [
  | inl same ↦ (0, omega arith, unfold Holds in (hash, (x, (refl, same))))
  | inr other ↦
      Holds-suc (taken hash x) buckets w (copies-Holds w buckets (ground (arith, rw other at h)))
]

pub Holds-copies :
    (w : Element) (buckets : List Slot) (i : ℕ)
    → i < length buckets
    → Holds buckets i w
    → 0 < copies w buckets
unfolding copies total Holds
Holds-copies w [] i l h = absurd (omega arith)
Holds-copies w (slot ∷ buckets) zero l (hash, (x, (e, q))) =
    let here : slot ≡ taken hash x = e in
    let one : matches w slot ≡ 1 = ap (matches w) here ∙ ap (λ b. if b then 1 else 0) q in
    omega arith
Holds-copies w (slot ∷ buckets) (suc i) l h =
    omega (arith, Holds-copies w buckets i (omega arith) h)

-- A slot where a value may be put.
unfoldable pub Vacant : Slot → Type 0
Vacant slot = (slot ≡ empty) ⊎ (slot ≡ removed)

-- The search ends at an equal value, or, if there is none, at a vacant slot that it comes to.
pub record Lands (s : Set) (value : Element) : Type 0 where
  pub index : ℕ
  pub found : find_slot s value ≡ some index
  pub inside : index < s.capacity
  pub ends :
      Holds s.buckets index value
      ⊎ (Vacant (get_or s.buckets index empty)
          × (Comes s.capacity s.buckets (get_hash value) index × (copies value s.buckets ≡ 0)))

nothing_there :
    (s : Set) (value : Element) (i : ℕ)
    → IsTable s
    → Placed s.capacity s.buckets
    → find_slot s value ≡ some i
    → ((hash : ℕ) (x : Element) → get_or s.buckets i empty ≢ taken hash x)
    → copies value s.buckets ≡ 0
unfolding find_slot Holds Hits
nothing_there s value i t p r bare = elim (Bool-cases (copies value s.buckets == 0)) [
  | inl none_there ↦ ground arith
  | inr there ↦
      let (j, l, (hash, (x, (e, q)))) = copies-Holds value s.buckets (ground arith) in
      let c =
        subst (λ h. Comes s.capacity s.buckets h j) (hash-equal x value q) (p.reached j hash x e) in
      let (i', (r', (hash', (x', (e', q'))))) =
        find_loop-Hits s.capacity s.buckets value s.capacity c.steps
          (wrap s.capacity (get_hash value)) none hash x c.short c.filled
          (ap (λ k. get_or s.buckets k empty) c.arrives ∙ e) q in
      let same : i' ≡ i = ground (arith, r', r) in
      absurd (bare hash' x' (subst (λ k. get_or s.buckets k empty ≡ taken hash' x') same e'))
]

pub find_slot-Lands :
    (s : Set) (value : Element)
    → IsTable s
    → Placed s.capacity s.buckets
    → s.used < s.capacity
    → Lands s value
unfolding find_slot Vacant Holds
find_slot-Lands s value t p room =
    let f = find_slot-IsFound s value t room in
    let comes : Comes s.capacity s.buckets (get_hash value) f.index =
      find_loop-Comes s.capacity s.buckets value (get_hash value) s.capacity 0
        (wrap s.capacity (get_hash value)) f.index none (unfold walk in refl) (omega arith)
        (unfold Filled in λ e l. absurd (omega arith)) tt f.found in
    record {
      index = f.index;
      found = f.found;
      inside = f.inside;
      ends = elim (Slot-cases (get_or s.buckets f.index empty)) [
        | inl blank ↦ inr (
          inl blank,
          (comes, nothing_there s value f.index t p f.found (λ hash x e. cc (blank, e))),
        )
        | inr (inl gone) ↦ inr (
          inr gone,
          (comes, nothing_there s value f.index t p f.found (λ hash x e. cc (gone, e))),
        )
        | inr (inr (hash, x, held)) ↦ inl (hash, (x, (held, f.fits hash x held)))
      ];
    }
