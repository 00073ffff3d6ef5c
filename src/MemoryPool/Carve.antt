-- ===== src/MemoryPool/Carve.antt =====
-- The loop of `memorypool_alloc` that divides a new chunk into free blocks.
use native.Mathlib.Nat.{add-mul}
use stdc.MemoryPool.{Heap, write, carve}
use stdc.Prelude.{
  none, some, refl, subst, ℕ, zero, suc, ◌+◌, ◌-◌, ◌*◌, ◌≤◌, ◌<◌, ◌≡◌, ◌≢◌, sym, ap, ◌∙◌, arith,
}
use stdc.MemoryPool.Owners.{
  nobody, idle, Owners, mark, mark-other, tag, extent, Headers, Headers-mark,
}
use stdc.MemoryPool.Space.{Apart, Clear, Clear-nobody, Apart-mark, Clear-mark}
use stdc.MemoryPool.Free.{IsFree, IsFree-push, IsFree-mark, nobody-ne-idle}

-- The blocks of a new chunk, from round `k` on, belong to a list.
unfoldable pub mark_blocks : ℕ → ℕ → ℕ → ℕ → ℕ → Owners → Owners
mark_blocks zero k start size i own = own
mark_blocks (suc n) k start size i own =
    mark_blocks n (k + 1) start size i (mark own (start + k * size) (idle i))

-- No two rounds meet the same address.
block-ne : (k j start size : ℕ) → 0 < size → k < j → start + j * size ≢ start + k * size
block-ne k j start size positive h e =
    let split = add-mul (k + 1) (j - (k + 1)) size in
    let one = add-mul k 1 size in
    let same : k + 1 + (j - (k + 1)) ≡ j = omega arith in
    let whole : j * size ≡ (k + 1) * size + (j - (k + 1)) * size =
      ap (λ t. t * size) (sym same) ∙ split in
    absurd (omega (arith, one, whole))

-- The loop over a new chunk puts its blocks in the list, one after the other.
pub carve-IsFree :
    {i : ℕ} (n k start size : ℕ) {own : Owners} {heap : Heap} {p : ℕ}
    → 0 < start
    → 0 < size
    → ((j : ℕ) → k ≤ j → j < k + n → own (start + j * size) ≡ nobody)
    → IsFree heap own i p
    → IsFree
        (carve n k start size heap p).0
        (mark_blocks n k start size i own)
        i
        (carve n k start size heap p).1
unfolding carve mark_blocks
carve-IsFree zero k start size a b fresh f = f
carve-IsFree {i} (suc n) k start size {own} a b fresh f =
    carve-IsFree n (k + 1) start size a b
      (λ j h l.
        mark-other own (start + k * size) (idle i) (start + j * size)
          (block-ne k j start size b (omega arith))
        ∙ fresh j (omega arith) (omega arith))
      (IsFree-push (start + k * size) (omega arith)
        (λ e. nobody-ne-idle (sym (fresh k (omega arith) (omega arith)) ∙ e)) f)

-- The other lists while a new chunk is divided.
pub carve-others :
    (i j : ℕ) (n k start size p : ℕ) {own : Owners} {heap : Heap} {q : ℕ}
    → j ≢ i
    → 0 < size
    → ((m : ℕ) → k ≤ m → m < k + n → own (start + m * size) ≡ nobody)
    → IsFree heap own j q
    → IsFree (carve n k start size heap p).0 (mark_blocks n k start size i own) j q
unfolding carve mark_blocks
carve-others i j zero k start size p ne b fresh f = f
carve-others i j (suc n) k start size p {own} {heap} ne b fresh f =
    let here = fresh k (omega arith) (omega arith) in
    carve-others i j n (k + 1) start size (start + k * size) ne b
      (λ m l r.
        mark-other own (start + k * size) (idle i) (start + m * size)
          (block-ne k m start size b (omega arith))
        ∙ fresh m (omega arith) (omega arith))
      (IsFree-mark (start + k * size) p (idle i) (λ e. nobody-ne-idle (sym here ∙ e))
        (λ e. ne (ground (arith, e))) f)

-- What the program has, and the room between, while a new chunk is divided.
pub carve-Headers :
    (i : ℕ) (n k start size p to : ℕ) {own : Owners} {heap : Heap}
    → size ≡ extent (idle i)
    → start + (k + n) * size ≤ to
    → Clear own (start + k * size) to
    → Apart own
    → Headers heap own
    → Headers (carve n k start size heap p).0 (mark_blocks n k start size i own)
      × Apart (mark_blocks n k start size i own)
      × ((x t : ℕ) → tag (own x) ≡ some t → mark_blocks n k start size i own x ≡ own x)
unfolding carve mark_blocks
carve-Headers i zero k start size p to e l c a h = (h, a, λ x t q. refl)
carve-Headers i (suc n) k start size p to {own} e l c a h =
    let at = start + k * size in
    let one = add-mul k 1 size in
    let more = add-mul (k + 1) n size in
    let positive : 0 < size = subst (λ t. 0 < t) (sym e) (unfold extent in omega arith) in
    let sum : k + suc n ≡ k + 1 + n = omega arith in
    let l' : start + (k + 1 + n) * size ≤ to = subst (λ t. start + t * size ≤ to) sum l in
    let here : own at ≡ nobody = Clear-nobody own at to at c (omega arith) (omega arith) in
    let next : at + extent (idle i) ≡ start + (k + 1) * size = omega (arith, e, one) in
    let rest =
      carve-Headers i n (k + 1) start size at to e l'
        (subst (λ t. Clear (mark own at (idle i)) t to) next (Clear-mark own at to (idle i) c))
        (Apart-mark own at to (idle i) c (omega (arith, e)) a)
        (Headers-mark at p (idle i) (unfold tag in refl) h) in
    (
      rest.0,
      rest.1,
      λ x t q.
          let blank : tag nobody ≡ none = unfold tag in refl in
          let other : x ≢ at =
            λ same. cc (sym q ∙ ap (λ z. tag (own z)) same ∙ ap tag here ∙ blank) in
          let still = mark-other own at (idle i) x other in rest.2 x t (ap tag still ∙ q) ∙ still,
    )

-- The list is not empty afterwards.
pub carve-positive :
    (n k start size : ℕ) (heap : Heap) (p : ℕ)
    → 0 < start
    → 0 < p
    → 0 < (carve n k start size heap p).1
unfolding carve
carve-positive zero k start size heap p a b = b
carve-positive (suc n) k start size heap p a b =
    carve-positive n (k + 1) start size (write heap (start + k * size) p) (start + k * size) a
      (omega arith)
